-- ===== src/Ident/Laws.antt =====
-- What the checks of identifiers let through, and the shape of an escaped identifier.
use xlorm.Common.{
  ℕ, ◌≤◌, ◌≡◌, refl, List, [], ◌∷◌, ◌++◌, true, false, ◌⊎◌, inl, inr, arith, All, All-append,
  is_empty, Bool-cases,
}
use xlorm.Text.{Text, codes, contains_any, has_byte}
use xlorm.Text.Laws.{Lacks}
use xlorm.Runes.{Unicode, runes, encode_rune}
use xlorm.Runes.Laws.{runes-All, encode_rune-All}
use xlorm.Ident.{
  valid_char, all_valid, is_valid_field_name, order_char, order_runes, is_valid_safe_order_by,
  is_one_of, reserved_words, name_char, safe_name, escape_sql_identifier,
}

-- The characters that end a quoted identifier, a statement or a text.
abbrev pub breakout_chars : Text
breakout_chars = b'`' ∷ b';' ∷ 0 ∷ b'\'' ∷ b'"' ∷ b' ' ∷ b'(' ∷ b')' ∷ []

all_valid-All : (s : Text) → all_valid s ≡ true → All (λ c. valid_char c ≡ true) s
unfolding all_valid
all_valid-All [] h = tt
all_valid-All (c ∷ s) h = (ground arith, all_valid-All s (ground arith))

-- A valid field name consists of valid characters.
is_valid_field_name-All :
    (s : Text) → is_valid_field_name s ≡ true → All (λ c. valid_char c ≡ true) s
unfolding is_valid_field_name
is_valid_field_name-All [] h = tt
is_valid_field_name-All (c ∷ s) h = all_valid-All (c ∷ s) h

-- A field name that passes holds none of the bytes that no valid character is.
module _ (chars : Text) (avoids : (c : ℕ) → valid_char c ≡ true → has_byte chars c ≡ false) where
  valid_chars-Lacks : (s : Text) → All (λ c. valid_char c ≡ true) s → Lacks chars s
  unfolding contains_any
  valid_chars-Lacks [] h = refl
  valid_chars-Lacks (c ∷ s) h = ground (arith, valid_chars-Lacks s h.1, avoids c h.0)

  pub is_valid_field_name-Lacks : (s : Text) → is_valid_field_name s ≡ true → Lacks chars s
  is_valid_field_name-Lacks s h = valid_chars-Lacks s (is_valid_field_name-All s h)

module _ (u : Unicode) where
  order_runes-All : (s : List ℕ) → order_runes u s ≡ true → All (λ c. order_char u c ≡ true) s
  unfolding order_runes
  order_runes-All [] h = tt
  order_runes-All (c ∷ s) h = (ground arith, order_runes-All s (ground arith))

  module _ (chars : Text)
      (avoids : (c : ℕ) → (order_char u c ≡ true) ⊎ (128 ≤ c) → has_byte chars c ≡ false) where
    order_chars-Lacks :
        (s : Text) → All (λ c. (order_char u c ≡ true) ⊎ (128 ≤ c)) s → Lacks chars s
    unfolding contains_any
    order_chars-Lacks [] h = refl
    order_chars-Lacks (c ∷ s) h = ground (arith, order_chars-Lacks s h.1, avoids c h.0)

    pub is_valid_safe_order_by-Lacks :
        (s : Text) → is_valid_safe_order_by u s ≡ true → Lacks chars s
    unfolding is_valid_safe_order_by
    is_valid_safe_order_by-Lacks s h =
        order_chars-Lacks s (runes-All (order_char u) s (order_runes-All (runes s) h))

  name_byte : (c : ℕ) → (name_char u c ≡ true) ⊎ (128 ≤ c) → has_byte breakout_chars c ≡ false
  unfolding has_byte
  name_byte c h = ground (arith, u.is_letter_ascii c, u.is_digit_ascii c)

  name_chars-Lacks :
      (s : Text) → All (λ c. (name_char u c ≡ true) ⊎ (128 ≤ c)) s → Lacks breakout_chars s
  unfolding contains_any
  name_chars-Lacks [] h = refl
  name_chars-Lacks (c ∷ s) h = ground (arith, name_chars-Lacks s h.1, name_byte c h.0)

  safe_name-All : (rs : List ℕ) → All (λ c. (name_char u c ≡ true) ⊎ (128 ≤ c)) (safe_name u rs)
  unfolding safe_name
  safe_name-All [] = tt
  safe_name-All (r ∷ rs) = elim (Bool-cases (name_char u r)) [
    | inl e ↦ rw e (
        All-append _ (encode_rune r) (safe_name u rs) (encode_rune-All (name_char u) r e)
          (safe_name-All rs))
    | inr e ↦ rw e (safe_name-All rs)
  ]

  -- An escaped identifier is a text between two backticks, and no character of that text can end
  -- the quotation or the statement, whatever the name is.
  pub escape_sql_identifier-quoted :
      (name : Text)
      → (body : Text) × (escape_sql_identifier u name ≡ b'`' ∷ body ++ b'`' ∷ [])
        × Lacks breakout_chars body
  unfolding escape_sql_identifier codes contains_any has_byte
  escape_sql_identifier-quoted name =
      elim (Bool-cases (is_one_of (u.to_lower name) reserved_words)) [
        | inl e ↦ (codes "invalid", rw e, refl)
        | inr e ↦ elim (Bool-cases (is_empty (safe_name u (runes name)))) [
          | inl f ↦ ([], rw (e, f), refl)
          | inr f ↦
              (safe_name u (runes name), rw (e, f), name_chars-Lacks _ (safe_name-All (runes name)))
        ]
      ]
