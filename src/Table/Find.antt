-- ===== src/Table/Find.antt =====
-- table.go: the operations that read. `defer t.Release()` leaves the cleared table on every path.
use xlorm.Common.{
  ℕ, List, [], ◌∷◌, ◌++◌, false, Bool, true, not, length, zero, suc, negsuc, if◌then◌else◌,
  is_empty, Option, none, some, ℤ, pos, leb,
}
use xlorm.Text.{Text, codes}
use xlorm.Value.{Value, bytes, string}
use xlorm.Row.{Row, insert}
use xlorm.Effects.{
  Env, Trace, ◌▷◌, RowsResult, Event, query, query_row, metric, log, query_duration, error, slow,
  slow_query, slow_find, LogEntry,
}
use xlorm.Effects
use xlorm.Table.{Db, Table, reset, new_table}
use xlorm.Table.Query.{build_query, copy_query_conditions}

pub data FindError : Type 0 where
  count_failed : FindError
  query_failed : FindError
  columns_failed : FindError
  scan_failed : FindError
  rows_failed : FindError
  no_rows : FindError
  handler_failed : ℕ → FindError

pub data Result {ℓ} (A : Type ℓ) : Type ℓ where
  ok : A → Result A
  err : FindError → Result A
  panics : Result A

-- Logged entries as events.
abbrev pub logs : List LogEntry → Trace
logs [] = []
logs (e ∷ es) = log e ∷ logs es

-- A `[]byte` is read as a text.
abbrev pub convert : Value → Value
convert (bytes s) = string s
convert v = v

-- The map of one scanned row; a column without a value does not occur, since a scan fills every
-- target.
unfoldable pub to_row : List Text → List Value → Row → Row
to_row [] vs row = row
to_row (col ∷ cols) [] row = row
to_row (col ∷ cols) (v ∷ vs) row = to_row cols vs (insert col (convert v) row)

-- The rows up to the first that cannot be scanned.
unfoldable pub scan_rows : List Text → List (Option (List Value)) → List Row → Result (List Row)
unfolding to_row
scan_rows columns [] results = ok results
scan_rows columns (none ∷ rows) results = err scan_failed
scan_rows columns (some values ∷ rows) results =
    scan_rows columns rows (results ++ to_row columns values [] ∷ [])

-- `args...` of a slice that may be nil
abbrev pub spread : Option (List Value) → List Value
spread none = []
spread (some vs) = vs

-- The table that the total is counted with, over the table that the pool hands out.
unfoldable pub count_table : Db → Table → Table → Table × List LogEntry
count_table db pooled t =
    let (c, es) = new_table db pooled t.table_name in (copy_query_conditions t c, es)

-- The row loop of `FindAllWithCursor`: the rows that the handler was called with, and how it ended. The
-- handler may answer from the rows before; `some n` is its error.
unfoldable pub cursor_rows :
    (List Row → Row → Option ℕ)
    → List Text
    → List (Option (List Value))
    → List Row
    → List Row × Option FindError
unfolding to_row
cursor_rows handler columns [] seen = (seen, none)
cursor_rows handler columns (none ∷ rows) seen = (seen, some scan_failed)
cursor_rows handler columns (some values ∷ rows) seen =
    let row = to_row columns values [] in
    let rest = cursor_rows handler columns rows (seen ++ row ∷ []) in
    elim (handler seen row) [ some n ↦ (seen ++ row ∷ [], some (handler_failed n)) | none ↦ rest ]

module _ (env : Env) (db : Db) where
  -- `Count`
  unfoldable pub count_rows : Table → Trace → Trace × Option ℤ
  count_rows t past =
      let (_, text, args, es) = build_query (codes "COUNT") t in
      let sent = past ++ logs es ▷ query_row text (spread args) in
      elim (env.run_query_row sent text (spread args)) [
        | none ↦ (sent ▷ metric error ▷ log (Effects.query_failed text (spread args)), none)
        | some n ↦ (sent ▷ metric (query_duration (codes "count") (pos (env.elapsed sent))), some n)
      ]

  -- The total that `HasTotal(true)` asks for: the table with it, or no table if counting fails.
  unfoldable pub fetch_total : Table → Table → Trace → Trace × Option Table
  unfolding count_rows count_table
  fetch_total pooled t past =
      let (c, es) = count_table db pooled t in
      let (after, answer) = count_rows c (past ++ logs es) in
      if not t.has_total
      then (past, some t)
      else elim answer [ none ↦ (after, none) | some n ↦ (after, some (record t { total = n })) ]

  -- Whether the slice for the rows can be made: with the limit as its capacity, or with 64 places.
  abbrev pub slice_made : ℤ → Bool
  slice_made (pos zero) = true
  slice_made (pos (suc n)) = env.slice_fits (suc n)
  slice_made (negsuc n) = true

  -- The end of a reading that succeeded, with its entry if it was slow.
  abbrev pub record_duration : Text → LogEntry → Trace → Trace
  record_duration find_type slow_entry past =
      let took = env.elapsed past in
      let timed = past ▷ metric (query_duration find_type (pos took)) in
      if leb db.slow_query_threshold took then timed ▷ metric slow ▷ log slow_entry else timed

  -- A failure that is counted and logged.
  abbrev pub fail {ℓ} : {A : Type ℓ} → FindError → Text → List Value → Trace → Trace × Result A
  fail e text args past = (past ▷ metric error ▷ log (Effects.query_failed text args), err e)

  -- What `findAllWithContext` does with the result set.
  unfoldable pub read_rows :
      Text → ℤ → Text → List Value → RowsResult → Trace → Trace × Result (List Row)
  unfolding scan_rows
  read_rows find_type limit text args result past = elim result.columns [
    | none ↦ fail columns_failed text args past
    | some columns ↦
        let scanned : Trace × Result (List Row) = elim (scan_rows columns result.rows []) [
          | err e ↦ fail e text args past
          | panics ↦ (past, panics)
          | ok results ↦ if not result.err_nil then fail rows_failed text args past else (
            record_duration find_type (slow_find text args (length results)) past,
            ok results,
          )
        ] in
        if slice_made limit then scanned else (past, panics)
  ]

  -- The part of `findAllWithContext` behind the total.
  unfoldable pub find_rows : Text → Table → Trace → Trace × Result (List Row)
  unfolding read_rows
  find_rows find_type t past =
      let (_, text, args, es) = build_query (codes "SELECT") t in
      let sent = past ++ logs es ▷ query text (spread args) in
      elim (env.run_query sent text (spread args)) [
        | none ↦ fail FindError.query_failed text (spread args) sent
        | some result ↦ read_rows find_type t.limit text (spread args) result sent
      ]

  -- `findAllWithContext`: the released table, the events and the rows; the slice of a limit that does not fit
  -- panics behind the query.
  unfoldable pub find_all_with_context :
      Text → Table → Table → Trace → Table × Trace × Result (List Row)
  unfolding fetch_total find_rows reset
  find_all_with_context find_type pooled t past =
      let name = if is_empty find_type then codes "findAllWithContext" else find_type in
      let (counted, answer) = fetch_total pooled t past in
      elim answer [
        | none ↦ (reset t, counted, err count_failed)
        | some t' ↦ let (after, rows) = find_rows name t' counted in (reset t', after, rows)
      ]

  -- `FindAll`
  unfoldable pub find_all : Table → Table → Trace → Table × Trace × Result (List Row)
  unfolding find_all_with_context
  find_all = find_all_with_context (codes "findAll")

  -- The first of the rows that `Find` read.
  abbrev pub first : Result (List Row) → Result Row
  first (err e) = err e
  first panics = panics
  first (ok []) = err no_rows
  first (ok (r ∷ rs)) = ok r

  -- `Find`
  unfoldable pub find : Table → Table → Trace → Table × Trace × Result Row
  unfolding find_all_with_context
  find pooled t past =
      let (t', after, rows) =
        find_all_with_context (codes "find") pooled (record t { limit = pos 1; has_total = false })
          past in
      (t', after, first rows)

  -- What `FindAllWithCursor` does with the result set; an error of the handler is neither counted nor
  -- logged.
  unfoldable pub read_cursor :
      (List Row → Row → Option ℕ)
      → Text
      → List Value
      → RowsResult
      → Trace
      → Trace × List Row × Option FindError
  unfolding cursor_rows
  read_cursor handler text args result past =
      let failed = past ▷ metric error ▷ log (Effects.query_failed text args) in
      elim result.columns [
        | none ↦ (failed, [], some columns_failed)
        | some columns ↦
            let (seen, ended) = cursor_rows handler columns result.rows [] in
            elim ended [
              | some (handler_failed n) ↦ (past, seen, some (handler_failed n))
              | some e ↦ (failed, seen, some e)
              | none ↦ if not result.err_nil then (failed, seen, some rows_failed) else (
                record_duration (codes "findAllWithContext") (slow_query text args) past,
                seen,
                none,
              )
            ]
      ]

  -- The part of `FindAllWithCursor` behind the total.
  unfoldable pub cursor_query :
      (List Row → Row → Option ℕ) → Table → Trace → Trace × List Row × Option FindError
  unfolding read_cursor
  cursor_query handler t past =
      let (_, text, args, es) = build_query (codes "SELECT") t in
      let sent = past ++ logs es ▷ query text (spread args) in
      elim (env.run_query sent text (spread args)) [
        | none ↦ (
          sent ▷ metric error ▷ log (Effects.query_failed text (spread args)),
          [],
          some FindError.query_failed,
        )
        | some result ↦ read_cursor handler text (spread args) result sent
      ]

  -- `FindAllWithCursor`: the released table, the events, the rows that the handler was called with,
  -- and the error.
  unfoldable pub find_all_with_cursor :
      (List Row → Row → Option ℕ)
      → Table
      → Table
      → Trace
      → Table × Trace × List Row × Option FindError
  unfolding fetch_total cursor_query reset
  find_all_with_cursor handler pooled t past =
      let (counted, answer) = fetch_total pooled t past in
      elim answer [
        | none ↦ (reset t, counted, [], some count_failed)
        | some t' ↦
            let (after, seen, ended) = cursor_query handler t' counted in
            (reset t', after, seen, ended)
      ]
