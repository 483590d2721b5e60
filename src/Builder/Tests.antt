-- ===== src/Builder/Tests.antt =====
-- Builder queries evaluated, and the theorems at concrete calls.
use xlorm.Common.{
  ◌^◌, ℕ, ◌+◌, ◌-◌, ◌*◌, ◌/◌, ◌≤◌, ◌<◌, ◌≡◌, refl, List, [], ◌∷◌, true, arith, pos, length,
}
use xlorm.Text.{Text, codes, count, has_byte, contains_any, join, concat, format_int}
use xlorm.Text.Laws.{counts}
use xlorm.Ident.{is_valid_field_name, is_valid_safe_order_by}
use xlorm.Runes.{runes}
use xlorm.Runes.Sample.{ascii}
use xlorm.Value.{int, string}
use xlorm.Condition.{where_text, write_conditions}
use xlorm.Paging.{page_offset}
use xlorm.Builder.{
  Builder, bad_field, cleared, new_builder, add_fields, add_where, or_where, not_where,
  set_order_by, set_for_update, set_page,
}
use xlorm.Builder.Build.{build}
use xlorm.Builder.Calls.{Call, run, fields, and_cond, not_cond, order, page_of, lock}
use xlorm.Builder.Safety.{Safe, build-Safe}
use xlorm.Builder.Placeholders.{build-placeholders}
use xlorm.Builder.Pages.{set_page-covers}

abbrev users : Text
users = codes "users"

abbrev sample_calls : List Call
sample_calls =
    fields (codes "id" ∷ codes "na;me" ∷ [])
    ∷ and_cond (codes "age > ?") (int (pos 18) ∷ [])
    ∷ not_cond (codes "name = ?") (string (codes "x") ∷ [])
    ∷ order (codes "id DESC")
    ∷ page_of (pos 3) (pos 10)
    ∷ lock true
    ∷ []

abbrev sample : Builder
sample = run ascii (new_builder cleared users) sample_calls

sample_text :
    (build sample).0
    ≡ codes
        "SELECT `id` FROM users WHERE (age > ? AND NOT (name = ?)) ORDER BY id DESC LIMIT 10 OFFSET 20 FOR UPDATE"
unfolding build run new_builder add_fields is_valid_field_name add_where or_where not_where
    set_order_by is_valid_safe_order_by runes set_page set_for_update page_offset concat join
    where_text write_conditions format_int count contains_any has_byte codes
sample_text = refl

sample_errors : (build sample).2 ≡ bad_field (codes "na;me") ∷ []
unfolding build run new_builder add_fields is_valid_field_name add_where or_where not_where
    set_order_by is_valid_safe_order_by runes set_page set_for_update page_offset count contains_any
    has_byte codes
sample_errors = refl

build-Safe_example : Safe (build sample).0
build-Safe_example = build-Safe ascii cleared users sample_calls

build-placeholders_example :
    count (build sample).0 b'?'
    ≡ length (build sample).1
      + (count sample.table b'?'
          + counts sample.joins b'?'
          + count sample.group_by b'?'
          + count sample.having b'?')
build-placeholders_example = build-placeholders ascii cleared users sample_calls

abbrev adults : Builder
adults = record cleared { wheres = codes "a = 1" ∷ []; condition_flags = 1; condition_index = 1 }

set_page-covers_example :
    let b = set_page cleared (pos (25 / 10 + 1)) (pos 10) in
    (b.limit ≡ pos 10)
    × (b.offset ≡ pos (25 / 10 * 10))
    × (25 / 10 * 10 ≤ 25)
    × (25 < 25 / 10 * 10 + 10)
    × ((page offset : ℕ)
        → 0 < page
        → page < 2 ^ 63
        → (page - 1) * 10 < 2 ^ 63
        → (set_page cleared (pos page) (pos 10)).offset ≡ pos offset
        → offset ≤ 25
        → 25 < offset + 10
        → page ≡ 25 / 10 + 1)
set_page-covers_example = set_page-covers cleared 25 10 (omega arith) (omega arith)
