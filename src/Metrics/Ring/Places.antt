-- ===== src/Metrics/Ring/Places.antt =====
-- Indices that go round the end of the ring buffer.
use native.Mathlib.Nat.{mod-add-mod, mod-eq_of_lt, mod-eq-sub-mod}
use native.Mathlib.Decide.{dec_lt}
use xlorm.Common.{ℕ, suc, ◌+◌, ◌-◌, ◌%◌, ◌<◌, ◌≡◌, ◌≢◌, ap, ◌∙◌, arith}

-- Going on by fewer places than there are does not come back.
pub step-ne : {size h k : ℕ} → h < size → suc k < size → (h + suc k) % size ≢ h
step-ne {size} {h} {k} hh hk = elim (dec_lt (h + suc k) size) [
  | yes p ↦ omega (arith, mod-eq_of_lt p)
  | no p ↦ omega (
    arith,
    mod-eq-sub-mod {n = h + suc k} {m = size} (omega arith),
    mod-eq_of_lt {n = h + suc k - size} {m = size} (omega arith),
  )
]

pub next_place : (h n size : ℕ) → (h + suc n) % size ≡ ((h + 1) % size + n) % size
next_place h n size = rw mod-add-mod (ap (λ k. k % size) (one_on h n))
  where
    one_on : (h n : ℕ) → h + suc n ≡ h + 1 + n
    one_on h n = omega arith

-- One place behind.
pub tail-on : (h c t size : ℕ) → t ≡ (h + c) % size → (t + 1) % size ≡ (h + (c + 1)) % size
tail-on h c t size e = rw e (mod-add-mod (h + c) size 1 ∙ ap (λ k. k % size) (grouped h c))
  where
    grouped : (h c : ℕ) → h + c + 1 ≡ h + (c + 1)
    grouped h c = omega arith

-- Round a full buffer, the tail follows the head.
pub tail-round : (h n size : ℕ) → h < size → n ≡ size → (h + n) % size ≡ h
tail-round h n size hh e = rw e (add_self ∙ mod-eq_of_lt hh)
  where
    add_self : (h + size) % size ≡ h % size
    add_self = mod-eq-sub-mod {n = h + size} {m = size} (omega arith) ∙ ap (λ k. k % size) minus
      where
        minus : h + size - size ≡ h
        minus = omega arith
