-- ===== src/Handle.antt =====
-- xlorm.go: the calls of a `DB` that send a statement of the caller, on a handle that is not nil, and the
-- calls of a cache of the caller. Each measures the time of its statement once.
pub mod Counts
pub mod Caching
mod Tests
use xlorm.Common.{
  pos, ℕ, List, [], ◌∷◌, ◌++◌, Bool, true, false, if◌then◌else◌, is_empty, Option, none, some, ltb,
}
use xlorm.Text.{Text, codes}
use xlorm.Value.{Value}
use xlorm.Effects.{
  Env, RowsResult, ExecResult, Trace, ◌▷◌, Event, query, exec, prepare, metric, query_duration,
  error, slow, log, query_failed, slow_query, cache_set_failed, cache_delete_failed,
}
use xlorm.Table.{Db}

-- The errors of a call: an empty statement, which is not sent, and the error of the package sql.
pub data CallError : Type 0 where
  empty_statement : CallError
  statement_failed : CallError

pub data Answer {ℓ} (A : Type ℓ) : Type ℓ where
  answered : A → Answer A
  refused : CallError → Answer A

module _ (env : Env) (db : Db) where
  -- What each call does with the answer to its statement.
  unfoldable pub finish_call {ℓ} :
      {A : Type ℓ} → Text → Text → List Value → Trace → Option A → Trace × Answer A
  finish_call name text args sent none =
      (sent ▷ metric error ▷ log (query_failed text args), refused statement_failed)
  finish_call name text args sent (some a) =
      let duration = env.elapsed sent in
      let timed = sent ▷ metric (query_duration name (pos duration)) in
      if ltb db.slow_query_threshold duration
      then (timed ▷ metric slow ▷ log (slow_query text args), answered a)
      else (timed, answered a)

  -- `DB.Query`
  unfoldable pub query_db : Text → List Value → Trace → Trace × Answer RowsResult
  unfolding finish_call
  query_db text args past =
      let sent = past ▷ query text args in
      if is_empty text
      then (past, refused empty_statement)
      else finish_call (codes "query") text args sent (env.run_query sent text args)

  -- `DB.QueryWithContext`, which sends an empty statement as well.
  unfoldable pub query_with_context : Text → List Value → Trace → Trace × Answer RowsResult
  unfolding finish_call
  query_with_context text args past =
      let sent = past ▷ query text args in
      finish_call (codes "queryWithContext") text args sent (env.run_query sent text args)

  -- `DB.Exec`
  unfoldable pub exec_db : Text → List Value → Trace → Trace × Answer ExecResult
  unfolding finish_call
  exec_db text args past =
      let sent = past ▷ exec text args in
      if is_empty text
      then (past, refused empty_statement)
      else finish_call (codes "exec") text args sent (env.run_exec sent text args)

  -- `DB.PrepareContext`, over what the server makes of a statement.
  unfoldable pub prepare_context {ℓ} :
      {A : Type ℓ} → (Trace → Text → Option A) → Text → Trace → Trace × Answer A
  unfolding finish_call
  prepare_context run_prepare text past =
      let sent = past ▷ prepare text in
      finish_call (codes "prepare") text [] sent (run_prepare sent text)

-- `Cache`, as the caller implements it: an answer with the state behind it, and whether the error is nil.
pub record UserCache : Type 1 where
  pub State : Type 0
  pub get_user : Text → State → State × Option Value
  pub set_user : Text → Value → ℕ → State → State × Bool
  pub delete_user : Text → State → State × Bool

module _ (C : UserCache) where
  open C use {State, get_user, set_user, delete_user}

  -- What `WithCache` does with the result of its function.
  unfoldable pub store_result :
      Text → ℕ → State → Trace → Option Value → State × Trace × Option Value
  store_result key expiration s past none = (s, past, none)
  store_result key expiration s past (some v) =
      let (s', ok) = set_user key v expiration s in
      (s', (if ok then past else past ▷ log cache_set_failed), some v)

  -- `WithCache`, of a function that goes on from the events before it (`none`: it fails).
  unfoldable pub with_cache :
      Text → ℕ → (Trace → Trace × Option Value) → State → Trace → State × Trace × Option Value
  unfolding store_result
  with_cache key expiration fn s past =
      let (s', got) = get_user key s in
      elim got [
        | some v ↦ (s', past, some v)
        | none ↦ let (after, result) = fn past in store_result key expiration s' after result
      ]

  -- `InvalidateCache`: the first error ends it.
  unfoldable pub invalidate_cache : List Text → State → Trace → State × Trace × Bool
  invalidate_cache [] s past = (s, past, true)
  invalidate_cache (key ∷ keys) s past =
      let (s', ok) = delete_user key s in
      let rest = invalidate_cache keys s' past in
      if ok then rest else (s', past ▷ log cache_delete_failed, false)
