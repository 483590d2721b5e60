-- ===== src/Ident/Tests.antt =====
-- Identifiers checked and escaped, and the theorems at concrete names.
use xlorm.Common.{◌≡◌, refl, [], ◌∷◌, ◌++◌, true, false}
use xlorm.Text.{Text, codes, eq_text}
use xlorm.Text.Laws.{Lacks}
use xlorm.Runes.{runes, encode_rune}
use xlorm.Runes.Sample.{ascii}
use xlorm.Ident.{is_valid_field_name, is_valid_safe_order_by, escape_sql_identifier}
use xlorm.Ident.Laws.{escape_sql_identifier-quoted, breakout_chars}

names :
    (is_valid_field_name (codes "u.id") ≡ true)
    × (is_valid_field_name (codes "a b") ≡ false)
    × (is_valid_safe_order_by ascii (codes "id DESC, name") ≡ true)
    × (is_valid_safe_order_by ascii (codes "id;") ≡ false)
unfolding is_valid_field_name is_valid_safe_order_by runes codes
names = (refl, refl, refl, refl)

escapes :
    (escape_sql_identifier ascii (codes "na`me; x") ≡ codes "`namex`")
    × (escape_sql_identifier ascii (codes "Select") ≡ codes "`invalid`")
unfolding escape_sql_identifier runes encode_rune eq_text codes
escapes = (refl, refl)

escape_sql_identifier-quoted_example :
    (body : Text) × (escape_sql_identifier ascii (codes "a`b") ≡ b'`' ∷ body ++ b'`' ∷ [])
    × Lacks breakout_chars body
escape_sql_identifier-quoted_example = escape_sql_identifier-quoted ascii (codes "a`b")
