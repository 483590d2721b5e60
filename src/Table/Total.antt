-- ===== src/Table/Total.antt =====
-- The total of a table: how it is counted.
use mathlib.Core.List.{cons-ne-nil}
use xlorm.Common.{◌≡◌, refl, ap, ◌≢◌, ◌∙◌, [], ◌∷◌, ◌++◌, arith}
use xlorm.Text.{Text, codes, contains_any, has_byte}
use xlorm.Text.Laws.{Lacks, append-Lacks}
use xlorm.Ident.{unsafe_chars}
use xlorm.Table.{Db, Table, new_table, get_table_name}
use xlorm.Table.Query.{copy_query_conditions}
use xlorm.Table.Find.{count_table}

module _ (db : Db) where
  quote-Safe :
      (name : Text)
      → Lacks unsafe_chars db.table_pre
      → Lacks unsafe_chars name
      → Lacks unsafe_chars (get_table_name db name)
  unfolding get_table_name codes contains_any has_byte
  quote-Safe name hp hn =
      append-Lacks unsafe_chars db.table_pre (name ++ b'`' ∷ []) hp
        (append-Lacks unsafe_chars name (b'`' ∷ []) hn refl)

  new_table-name :
      (pooled : Table) (name : Text)
      → name ≢ []
      → Lacks unsafe_chars name
      → (new_table db pooled name).0.table_name ≡ get_table_name db name
  unfolding new_table
  new_table-name pooled name hn hs = ground arith

  quoted-ne-nil : (name : Text) → get_table_name db name ≢ []
  unfolding get_table_name codes
  quoted-ne-nil name = cons-ne-nil _ _

  -- The total of a table that `Table` returned is counted on a table of another name: the prefix
  -- and the quotes are put on twice. The name is not empty, and name and prefix hold no separator.
  pub count_table-name :
      (pooled pooled' : Table) (name : Text)
      → name ≢ []
      → Lacks unsafe_chars db.table_pre
      → Lacks unsafe_chars name
      → (count_table db pooled' (new_table db pooled name).0).0.table_name
        ≡ get_table_name db (get_table_name db name)
  unfolding count_table copy_query_conditions
  count_table-name pooled pooled' name hn hp hs =
      ap (λ n. (new_table db pooled' n).0.table_name) (new_table-name pooled name hn hs)
      ∙ new_table-name pooled' (get_table_name db name) (quoted-ne-nil name) (quote-Safe name hp hs)
