-- ===== src/Metrics/Store/Sums.antt =====
-- The sum of int64 durations that `GetDBMetrics` takes, against the exact sum.
use xlorm.Common.{
  ℕ, ◌+◌, ◌-◌, ◌*◌, ◌/◌, ◌%◌, ◌^◌, ◌<◌, ltb, Bool-cases, inl, inr, ◌≡◌, refl, sym, ap, ◌∙◌, List,
  [], ◌∷◌, ℤ, pos, negsuc, ◌+ℤ◌, wrap64, arith, u64_mod, of_bits64, pos_part, neg_part,
}
use xlorm.Metrics.Store.{total_from}

-- The exact sum.
unfoldable pub sum_of : List ℤ → ℤ
sum_of [] = pos 0
sum_of (d ∷ ds) = d +ℤ sum_of ds

-- Integers that differ by a multiple of 2^64.
IsCongruent : ℤ → ℤ → Type 0
IsCongruent a b =
    (x : ℕ) × (y : ℕ) × (pos_part a + neg_part b + x * u64_mod
      ≡ pos_part b + neg_part a + y * u64_mod)

same_bits : (m n : ℕ) → m ≡ n → of_bits64 m ≡ of_bits64 n
same_bits m n e = ap of_bits64 e

wrap64-congruent : (a b : ℤ) → IsCongruent a b → wrap64 a ≡ wrap64 b
unfolding wrap64 IsCongruent
wrap64-congruent (pos m) (pos n) (x, y, e) = same_bits _ _ (omega (arith, e))
wrap64-congruent (pos m) (negsuc n) (x, y, e) = same_bits _ _ (omega (arith, e))
wrap64-congruent (negsuc m) (pos n) (x, y, e) = same_bits _ _ (omega (arith, e))
wrap64-congruent (negsuc m) (negsuc n) (x, y, e) = same_bits _ _ (omega (arith, e))

sum_parts :
    (a b : ℤ)
    → pos_part (a +ℤ b) + (neg_part a + neg_part b) ≡ neg_part (a +ℤ b) + (pos_part a + pos_part b)
unfolding ◌+ℤ◌
sum_parts a b = ground arith

by_parts : (a b : ℤ) → pos_part a + neg_part b ≡ pos_part b + neg_part a → a ≡ b
by_parts (pos m) (pos n) e = ap pos (omega (arith, e))
by_parts (pos m) (negsuc n) e = absurd (omega (arith, e))
by_parts (negsuc m) (pos n) e = absurd (omega (arith, e))
by_parts (negsuc m) (negsuc n) e = ap negsuc (omega (arith, e))

add_assoc : (a b c : ℤ) → (a +ℤ b) +ℤ c ≡ a +ℤ (b +ℤ c)
add_assoc a b c =
    by_parts _ _
      (omega (arith, sum_parts (a +ℤ b) c, sum_parts a b, sum_parts a (b +ℤ c), sum_parts b c))

add_zero : (a : ℤ) → a +ℤ pos 0 ≡ a
add_zero a = by_parts _ _ (omega (arith, sum_parts a (pos 0)))

zero_add : (a : ℤ) → pos 0 +ℤ a ≡ a
zero_add a = by_parts _ _ (omega (arith, sum_parts (pos 0) a))

bits_parts :
    (r : ℕ)
    → r < u64_mod
    → (x : ℕ) × (pos_part (of_bits64 r) + x * u64_mod ≡ r + neg_part (of_bits64 r))
bits_parts r h = elim (Bool-cases (ltb r (2 ^ 63))) [
  | inl e ↦ (0, rw (e) (omega arith))
  | inr e ↦ (1, rw (e) (omega (arith, h)))
]

wrap64-same : (a : ℤ) → IsCongruent (wrap64 a) a
unfolding wrap64 IsCongruent
wrap64-same (pos n) =
    let (x, e) = bits_parts (n % u64_mod) (omega arith) in (x + n / u64_mod, 0, omega (arith, e))
wrap64-same (negsuc n) =
    let (x, e) = bits_parts (u64_mod - 1 - n % u64_mod) (omega arith) in
    (x, 1 + n / u64_mod, omega (arith, e))

wrap64_twice : (a : ℤ) → wrap64 (wrap64 a) ≡ wrap64 a
wrap64_twice a = wrap64-congruent _ _ (wrap64-same a)

wrap64-add : (a b : ℤ) → wrap64 (wrap64 a +ℤ b) ≡ wrap64 (a +ℤ b)
unfolding IsCongruent
wrap64-add a b =
    let (x, y, e) = wrap64-same a in
    wrap64-congruent _ _ (x, y, omega (arith, e, sum_parts (wrap64 a) b, sum_parts a b))

total_from-sum_of :
    (total : ℤ) (durs : List ℤ)
    → wrap64 total ≡ total
    → total_from total durs ≡ wrap64 (total +ℤ sum_of durs)
unfolding total_from sum_of
total_from-sum_of total [] h = sym h ∙ ap wrap64 (sym (add_zero total))
total_from-sum_of total (d ∷ ds) h =
    total_from-sum_of (wrap64 (total +ℤ d)) ds (wrap64_twice (total +ℤ d))
    ∙ wrap64-add (total +ℤ d) (sum_of ds)
    ∙ ap wrap64 (add_assoc total d (sum_of ds))

zero_fits : wrap64 (pos 0) ≡ pos 0
unfolding wrap64
zero_fits = refl

pub total-sum_of : (durs : List ℤ) → total_from (pos 0) durs ≡ wrap64 (sum_of durs)
total-sum_of durs = total_from-sum_of (pos 0) durs zero_fits ∙ ap wrap64 (zero_add (sum_of durs))
