-- ===== src/Table/Cursor.antt =====
-- Reading by a cursor against reading all rows.
use xlorm.Common.{
  ◌⊎◌, inl, inr, Option-cases, ℕ, ◌≡◌, ◌≢◌, refl, List, [], ◌∷◌, ◌++◌, Option, none, some, true,
  false, Bool, not, if◌then◌else◌, ℤ, map, Bool-cases, leb, sym, ap, ◌∙◌,
}
use mathlib.Core.Option.{some-injective}
use xlorm.Text.{Text, codes}
use xlorm.Value.{Value}
use xlorm.Row.{Row}
use xlorm.Table.Query.{build_query}
use xlorm.Effects.{Event, log, slow_find, slow_query, query, ◌▷◌, Env, Trace, RowsResult}
use xlorm.Table.{Db, Table}
use xlorm.Table.Find.{
  FindError, scan_failed, Result, ok, err, scan_rows, cursor_rows, read_rows, read_cursor,
  slice_made, record_duration, find_rows, find_all_with_context, find_all_with_cursor, to_row,
  fetch_total, count_rows, count_table, cursor_query, spread, logs,
}

-- A handler that refuses no row.
abbrev pub accept_all : List Row → Row → Option ℕ
accept_all seen row = none

-- What a reading of all rows answers, given what the handler saw and how the cursor ended.
abbrev pub answer_of : List Row → Option FindError → Result (List Row)
answer_of seen none = ok seen
answer_of seen (some e) = err e

cursor_rows-scan_rows :
    (columns : List Text) (rows : List (Option (List Value))) (seen : List Row)
    → let (seen', ended) = cursor_rows accept_all columns rows seen in
      (scan_rows columns rows seen ≡ answer_of seen' ended)
      × ((ended ≡ none) ⊎ (ended ≡ some scan_failed))
unfolding cursor_rows scan_rows
cursor_rows-scan_rows columns [] seen = (refl, inl refl)
cursor_rows-scan_rows columns (none ∷ rows) seen = (refl, inr refl)
cursor_rows-scan_rows columns (some values ∷ rows) seen =
    cursor_rows-scan_rows columns rows (seen ++ to_row columns values [] ∷ [])

abbrev full : Text
full = codes "findAllWithContext"

-- An entry of a slow query without the number of its rows, which the cursor does not report.
abbrev pub without_rows : Event → Event
without_rows (log (slow_find text args n)) = log (slow_query text args)
without_rows e = e

map-append {ℓ κ} :
    {A : Type ℓ} {B : Type κ} (f : A → B) (xs ys : List A) → map f (xs ++ ys) ≡ map f xs ++ map f ys
map-append f [] ys = refl
map-append f (x ∷ xs) ys = ap (λ zs. f x ∷ zs) (map-append f xs ys)

none-ne-some : {t : Table} → none ≢ some t
none-ne-some e = cc

total-limit :
    (b : Bool) (answer : Option ℤ) (t t' : Table) (past after : Trace)
    → (if b then (past, some t) else elim answer as (λ o. Trace × Option Table) [
      | none ↦ (after, none)
      | some n ↦ (after, some (record t { total = n }))
    ]).1
      ≡ some t'
    → t'.limit ≡ t.limit
total-limit true answer t t' past after e = ap (λ u. u.limit) (sym (some-injective t t' e))
total-limit false none t t' past after e = absurd (none-ne-some e)
total-limit false (some n) t t' past after e =
    ap (λ u. u.limit) (sym (some-injective (record t { total = n }) t' e))

module _ (env : Env) (db : Db) where
  record_duration-alike :
      (text : Text) (args : List Value) (n : ℕ) (past : Trace)
      → map without_rows (record_duration env db full (slow_find text args n) past)
        ≡ map without_rows (record_duration env db full (slow_query text args) past)
  record_duration-alike text args n past =
      elim (Bool-cases (leb db.slow_query_threshold (env.elapsed past))) [
        | inl e ↦ rw (e) (
            map-append without_rows _ (log (slow_find text args n) ∷ [])
            ∙ sym (map-append without_rows _ (log (slow_query text args) ∷ [])))
        | inr e ↦ rw (e) refl
      ]

  -- The two readings record the same but for the number of rows, and answer the same.
  abbrev IsAlike : Trace × Result (List Row) → Trace × List Row × Option FindError → Type 0
  IsAlike (after1, answer) (after2, seen, ended) =
      (map without_rows after1 ≡ map without_rows after2) × (answer ≡ answer_of seen ended)

  read_cursor-read_rows :
      (limit : ℤ) (text : Text) (args : List Value) (result : RowsResult) (past : Trace)
      → slice_made env db limit ≡ true
      → IsAlike
          (read_rows env db full limit text args result past)
          (read_cursor env db accept_all text args result past)
  unfolding read_cursor read_rows
  read_cursor-read_rows limit text args result past fits = elim (Option-cases result.columns) [
    | inl e ↦ rw (e) (refl, refl)
    | inr (columns, e) ↦
        let (same, ends) = cursor_rows-scan_rows columns result.rows [] in
        elim ends [
          | inl f ↦ elim (Bool-cases result.err_nil) [
            | inl g ↦
                simp (e, read_rows, read_cursor, fits, same, f, g)
                  (record_duration-alike text args _ past, refl)
            | inr g ↦ simp (e, read_rows, read_cursor, fits, same, f, g) (refl, refl)
          ]
          | inr f ↦ simp (e, read_rows, read_cursor, fits, same, f) (refl, refl)
        ]
  ]

  cursor_query-find_rows :
      (t : Table) (past : Trace)
      → slice_made env db t.limit ≡ true
      → IsAlike (find_rows env db full t past) (cursor_query env db accept_all t past)
  unfolding cursor_query find_rows
  cursor_query-find_rows t past fits =
      let (_, text, args, es) = build_query (codes "SELECT") t in
      let sent = past ++ logs es ▷ query text (spread args) in
      elim (Option-cases (env.run_query sent text (spread args))) [
        | inl e ↦ rw (e, find_rows, cursor_query) (refl, refl)
        | inr (result, e) ↦
            rw (e, find_rows, cursor_query)
              (read_cursor-read_rows t.limit text (spread args) result sent fits)
      ]

  fetch_total-limit :
      (pooled t t' : Table) (past : Trace)
      → (fetch_total env db pooled t past).1 ≡ some t'
      → t'.limit ≡ t.limit
  unfolding fetch_total
  fetch_total-limit pooled t t' past e =
      let (c, es) = count_table db pooled t in
      let (after, answer) = count_rows env db c (past ++ logs es) in
      total-limit (not t.has_total) answer t t' past after e

  -- With a handler that accepts every row, and a limit for which the slice of FindAllWithContext can be made,
  -- a cursor sends the same statements and records the same events as FindAllWithContext, but for the
  -- number of rows in the entry of a slow query; it leaves the same table, hands the handler exactly
  -- the rows that FindAllWithContext returns, and fails exactly when it fails, with the same error.
  pub find_all_with_cursor-find_all :
      (pooled t : Table) (past : Trace)
      → slice_made env db t.limit ≡ true
      → let (t1, after1, answer) =
          find_all_with_context env db (codes "findAllWithContext") pooled t past in
        let (t2, after2, seen, ended) = find_all_with_cursor env db accept_all pooled t past in
        (t1 ≡ t2)
        × (map without_rows after1 ≡ map without_rows after2)
        × (answer ≡ answer_of seen ended)
  unfolding find_all_with_context find_all_with_cursor codes
  find_all_with_cursor-find_all pooled t past fits =
      elim (Option-cases (fetch_total env db pooled t past).1) [
        | inl e ↦ simp (e, find_all_with_context, find_all_with_cursor) (refl, refl, refl)
        | inr (t', e) ↦
            let same = fetch_total-limit pooled t t' past e in
            let (events, rows) =
              cursor_query-find_rows t' (fetch_total env db pooled t past).0
                (ap (slice_made env db) same ∙ fits) in
            simp (e, find_all_with_context, find_all_with_cursor) (refl, events, rows)
      ]
