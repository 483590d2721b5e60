-- ===== src/Ident.antt =====
-- The checks and the escaping of SQL identifiers in utils.go.
pub mod Laws
mod Tests
use xlorm.Common.{
  ℕ, ◌≡◌, List, [], ◌∷◌, ◌++◌, Bool, true, false, ◌&&◌, ◌||◌, not, leb, ◌==◌, if◌then◌else◌,
  is_empty,
}
use xlorm.Text.{Text, codes, eq_text}
use xlorm.Runes.{Unicode, runes, encode_rune}

-- `validChars[c]`
abbrev pub valid_char : ℕ → Bool
valid_char c =
    (leb b'a' c && leb c b'z')
    || (leb b'A' c && leb c b'Z')
    || (leb b'0' c && leb c b'9')
    || c == b'_'
    || c == b'.'

all_valid : Text → Bool
all_valid [] = true
all_valid (c ∷ s) = if not (valid_char c) then false else all_valid s

-- `isValidFieldName`
unfoldable pub is_valid_field_name : Text → Bool
unfolding all_valid
is_valid_field_name field = if is_empty field then false else all_valid field

-- `";\x00"`
abbrev pub unsafe_chars : Text
unsafe_chars = b';' ∷ 0 ∷ []

reserved_words : List Text
reserved_words = codes "select" ∷ codes "insert" ∷ codes "update" ∷ codes "delete" ∷ []

is_one_of : Text → List Text → Bool
is_one_of s [] = false
is_one_of s (w ∷ ws) = eq_text s w || is_one_of s ws

module _ (u : Unicode) where
  open u use {is_letter, is_digit, to_lower}

  abbrev pub order_char : ℕ → Bool
  order_char c = is_letter c || is_digit c || c == b'_' || c == b',' || c == b' '

  order_runes : List ℕ → Bool
  order_runes [] = true
  order_runes (c ∷ s) =
      if (not (is_letter c)
        && not (is_digit c)
        && not (c == b'_')
        && not (c == b',')
        && not (c == b' '))
      then false
      else order_runes s

  -- `isValidSafeOrderBy`
  unfoldable pub is_valid_safe_order_by : Text → Bool
  unfolding order_runes
  is_valid_safe_order_by s = order_runes (runes s)

  abbrev pub name_char : ℕ → Bool
  name_char r = is_letter r || is_digit r || r == b'_' || r == b'.'

  -- The bytes that the loop writes to `safeName`.
  unfoldable pub safe_name : List ℕ → Text
  safe_name [] = []
  safe_name (r ∷ rs) = if name_char r then encode_rune r ++ safe_name rs else safe_name rs

  -- `escapeSQLIdentifier`
  unfoldable pub escape_sql_identifier : Text → Text
  unfolding reserved_words is_one_of safe_name
  escape_sql_identifier name =
      let safe = safe_name (runes name) in
      if is_one_of (to_lower name) reserved_words
      then b'`' ∷ codes "invalid`"
      else if is_empty safe
      then b'`' ∷ b'`' ∷ []
      else b'`' ∷ safe ++ b'`' ∷ []
