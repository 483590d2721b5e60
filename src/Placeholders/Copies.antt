-- ===== src/Placeholders/Copies.antt =====
-- The doubling copy fills every place.
use native.Mathlib.Decide.{dec_lt, dec_le}
use xlorm.Common.{
  ℕ, zero, suc, ◌+◌, ◌-◌, ◌*◌, ◌≤◌, ◌<◌, ◌≡◌, refl, ap, ap₂, ◌∙◌, List, [], ◌∷◌, ◌++◌, true, ltb,
  arith, length, take, drop, replicate, append-nil,
}
use xlorm.Text.{Text}
use xlorm.Placeholders.{copy_front, double_loop, build_placeholders}

double : (i : ℕ) → i * 2 ≡ i + i
double i = omega arith

regroup : (i m : ℕ) → i ≤ m → i + m ≡ i + i + (m - i)
regroup i m h = omega arith

one_more : (n : ℕ) → suc n ≡ 1 + n
one_more n = omega arith

module _ {ℓ} {A : Type ℓ} where
  -- The first `i` places hold `a`, and `m` places are behind them.
  abbrev filled : A → A → ℕ → ℕ → List A
  filled a b i m = replicate i a ++ replicate m b

  length-filled : (a b : A) (i m : ℕ) → length (filled a b i m) ≡ i + m
  length-filled a b zero zero = omega arith
  length-filled a b zero (suc m) = omega (arith, length-filled a b zero m)
  length-filled a b (suc i) m = omega (arith, length-filled a b i m)

  take-filled : (a b : A) (i m : ℕ) → take i (filled a b i m) ≡ replicate i a
  take-filled a b zero m = refl
  take-filled a b (suc i) m = ap (◌∷◌ a) (take-filled a b i m)

  drop-filled : (a b : A) (i m : ℕ) → drop i (filled a b i m) ≡ replicate m b
  drop-filled a b zero m = refl
  drop-filled a b (suc i) m = drop-filled a b i m

  take_all-replicate : (a : A) (k i : ℕ) → i ≤ k → take k (replicate i a) ≡ replicate i a
  take_all-replicate a zero zero h = refl
  take_all-replicate a (suc k) zero h = refl
  take_all-replicate a zero (suc i) h = absurd (omega arith)
  take_all-replicate a (suc k) (suc i) h = ap (◌∷◌ a) (take_all-replicate a k i (omega arith))

  take-replicate : (a : A) (k i : ℕ) → k ≤ i → take k (replicate i a) ≡ replicate k a
  take-replicate a zero i h = refl
  take-replicate a (suc k) zero h = absurd (omega arith)
  take-replicate a (suc k) (suc i) h = ap (◌∷◌ a) (take-replicate a k i (omega arith))

  replicate-cong : (a : A) (i j : ℕ) → i ≡ j → replicate i a ≡ replicate j a
  replicate-cong a i j e = ap (λ n. replicate n a) e

  drop-replicate : (a : A) (k m : ℕ) → drop k (replicate m a) ≡ replicate (m - k) a
  drop-replicate a zero m = replicate-cong a (m) (m - 0) (omega arith)
  drop-replicate a (suc k) zero = replicate-cong a (0) (0 - suc k) (omega arith)
  drop-replicate a (suc k) (suc m) =
      drop-replicate a k m ∙ replicate-cong a (m - k) (suc m - suc k) (omega arith)

  append-replicate :
      (a : A) (i j : ℕ) (xs : List A)
      → replicate i a ++ (replicate j a ++ xs) ≡ replicate (i + j) a ++ xs
  append-replicate a zero j xs = ap (λ t. t ++ xs) (replicate-cong a (j) (0 + j) (omega arith))
  append-replicate a (suc i) j xs =
      ap (◌∷◌ a) (append-replicate a i j xs)
      ∙ ap (λ t. t ++ xs) (replicate-cong a (suc (i + j)) (suc i + j) (omega arith))

  -- A copy with room left doubles the filled places; the last copy fills what is left.
  copy_front-filled :
      (a b : A) (i m : ℕ) → i ≤ m → copy_front i (filled a b i m) ≡ filled a b (i + i) (m - i)
  unfolding copy_front
  copy_front-filled a b i m h =
      rw (take-filled a b i m, drop-filled a b i m, length-filled a b i m, drop-replicate b i m)
        (rw (take_all-replicate a (i + m - i) i (omega arith))
          (append-replicate a i i (replicate (m - i) b)))

  copy_front-full :
      (a b : A) (i m : ℕ) → m ≤ i → copy_front i (filled a b i m) ≡ replicate (i + m) a
  unfolding copy_front
  copy_front-full a b i m h =
      rw (take-filled a b i m, drop-filled a b i m, length-filled a b i m, drop-replicate b i m)
        (rw
          (replicate-cong b (m - i) (0) (omega arith), take-replicate a (i + m - i) i (omega arith))
          (append-replicate a i (i + m - i) []
            ∙ append-nil (replicate (i + (i + m - i)) a)
            ∙ replicate-cong a (i + (i + m - i)) (i + m) (omega arith)))

  double_loop_done : (fuel i n : ℕ) (xs : List A) → n ≤ i → double_loop fuel i n xs ≡ xs
  unfolding double_loop
  double_loop_done zero i n xs h = refl
  double_loop_done (suc fuel) i n xs h = ground arith

  double_loop_step :
      (fuel i n : ℕ) (xs : List A)
      → i < n
      → double_loop (suc fuel) i n xs ≡ double_loop fuel (i * 2) n (copy_front i xs)
  unfolding double_loop
  double_loop_step fuel i n xs h = ground arith

  filled-zero : (a b : A) (i m : ℕ) → m ≡ 0 → filled a b i m ≡ replicate (i + m) a
  filled-zero a b i m e =
      ap (λ k. filled a b i k) e
      ∙ append-nil (replicate i a)
      ∙ replicate-cong a i (i + m) (omega arith)

  -- From `i` filled places on, the loop fills all `i + m` places in `m` rounds or fewer.
  double_loop-filled :
      (a b : A) (fuel i m : ℕ)
      → 0 < i
      → m ≤ fuel
      → double_loop fuel i (i + m) (filled a b i m) ≡ replicate (i + m) a
  double_loop-filled a b zero i m hi hf = unfold double_loop in filled-zero a b i m (omega arith)
  double_loop-filled a b (suc fuel) i m hi hf = elim (dec_lt 0 m) [
    | no empty ↦
        double_loop_done (suc fuel) i (i + m) _ (omega arith) ∙ filled-zero a b i m (omega arith)
    | yes some_left ↦ double_loop_step fuel i (i + m) _ (omega arith) ∙ elim (dec_le m i) [
      | yes last ↦
          ap (double_loop fuel (i * 2) (i + m)) (copy_front-full a b i m last)
          ∙ double_loop_done fuel (i * 2) (i + m) _ (omega arith)
      | no more ↦
          ap (double_loop fuel (i * 2) (i + m)) (copy_front-filled a b i m (omega arith))
          ∙ ap₂ (λ j k. double_loop fuel j k (filled a b (i + i) (m - i))) (double i)
              (regroup i m (omega arith))
          ∙ double_loop-filled a b fuel (i + i) (m - i) (omega arith) (omega arith)
          ∙ replicate-cong a (i + i + (m - i)) (i + m) (omega arith)
    ]
  ]

some_record : (n : ℕ) → ltb 0 (suc n) ≡ true
some_record n = ground arith

build_placeholders-loop :
    (placeholder : Text) (n : ℕ)
    → build_placeholders placeholder (suc n)
      ≡ double_loop (suc n) 1 (suc n) (placeholder ∷ replicate n [])
unfolding build_placeholders
build_placeholders-loop placeholder n = rw (some_record n)

-- `buildPlaceholders` returns the placeholder once for each record.
pub build_placeholders-replicate :
    (placeholder : Text) (record_count : ℕ)
    → build_placeholders placeholder record_count ≡ replicate record_count placeholder
build_placeholders-replicate placeholder zero = unfold build_placeholders in refl
build_placeholders-replicate placeholder (suc n) =
    build_placeholders-loop placeholder n
    ∙ ap (λ k. double_loop (suc n) 1 k (placeholder ∷ replicate n [])) (one_more n)
    ∙ double_loop-filled placeholder [] (suc n) 1 n (omega arith) (omega arith)
    ∙ replicate-cong placeholder (1 + n) (suc n) (omega arith)
