-- ===== src/Runes/Laws.antt =====
-- ASCII bytes and runes are the same; every byte of another rune is 128 or more.
use xlorm.Common.{ℕ, zero, suc, ◌≤◌, ◌<◌, ◌≡◌, [], ◌∷◌, Bool, true, arith, ◌⊎◌, inr, All}
use xlorm.Text.{Text}
use xlorm.Runes.{decode_rune, runes_from, runes, encode_rune}

-- The first `n` bytes of a text are there, and are 128 or more.
abbrev High : ℕ → Text → Type 0
High zero s = Unit
High (suc n) [] = ⊥
High (suc n) (c ∷ s) = (128 ≤ c) × High n s

decode_rune-High : (b : ℕ) (s : Text) → High (decode_rune b s).1 s
unfolding decode_rune
decode_rune-High b [] = ground arith
decode_rune-High b (x ∷ []) = ground arith
decode_rune-High b (x ∷ y ∷ []) = ground arith
decode_rune-High b (x ∷ y ∷ z ∷ s) = ground arith

decode_rune_ascii : (b : ℕ) (s : Text) → b < 128 → (decode_rune b s).0 ≡ b
unfolding decode_rune
decode_rune_ascii b s h = ground arith

-- A test of every rune of a text says of every byte that it is 128 or more or passes the test.
module _ (p : ℕ → Bool) where
  runes_from-All :
      (skip : ℕ) (s : Text)
      → High skip s
      → All (λ r. p r ≡ true) (runes_from skip s)
      → All (λ c. (p c ≡ true) ⊎ (128 ≤ c)) s
  unfolding runes_from
  runes_from-All zero [] h t = tt
  runes_from-All (suc skip) [] h t = tt
  runes_from-All (suc skip) (b ∷ s) h t = (inr h.0, runes_from-All skip s h.1 t)
  runes_from-All zero (b ∷ s) h t = (
    ground (arith, decode_rune_ascii b s, t.0),
    runes_from-All (decode_rune b s).1 s (decode_rune-High b s) t.1,
  )

  pub runes-All :
      (s : Text) → All (λ r. p r ≡ true) (runes s) → All (λ c. (p c ≡ true) ⊎ (128 ≤ c)) s
  unfolding runes
  runes-All s = runes_from-All 0 s tt

  pub encode_rune-All : (r : ℕ) → p r ≡ true → All (λ c. (p c ≡ true) ⊎ (128 ≤ c)) (encode_rune r)
  unfolding encode_rune
  encode_rune-All r h = ground arith
