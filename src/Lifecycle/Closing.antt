-- ===== src/Lifecycle/Closing.antt =====
-- xlorm.go: `Close`, and what happens to a `DB` before it.
use xlorm.Common.{
  ℕ, ◌≡◌, List, [], ◌∷◌, ◌++◌, Bool, true, false, ◌||◌, if◌then◌else◌, Option, none, some,
}
use xlorm.Text.{Text}
use xlorm.Effects.{Metric}
use xlorm.Metrics.Async.{AsyncDbMetrics, call, work, stop}
use xlorm.Cache.{Lru, clear}
use xlorm.Cache.Refine.{Call, call_cache}
use xlorm.Pool
use xlorm.Pool.{Pool, set_db_metrics_enable}
use xlorm.Config.{set_log_level}
use xlorm.Lifecycle.{
  Database, not_started, running, ended, is_running, joined, Handler, async_handler, file_handler,
  other_handler, set_debug,
}

-- The errors that `Close` reports, and what the closings answer.
pub data CloseError : Type 0 where
  connection_not_closed : CloseError
  file_not_closed : CloseError
  handler_not_closed : CloseError

pub record Closing : Type 0 where
  pub connection_closes : Bool
  pub handler_closes : Bool

pub data CloseResult : Type 0 where
  returned : List CloseError → CloseResult
  waiting : CloseResult
  close_panics : CloseResult

abbrev pub failure : CloseError → Bool → List CloseError
failure e ok = if ok then [] else e ∷ []

-- The errors that `Close` collects: a handler is closed by the one of the two tests that knows its type.
unfoldable pub failures : Closing → Handler → List CloseError
failures c async_handler =
    failure connection_not_closed c.connection_closes ++ failure handler_not_closed c.handler_closes
failures c file_handler =
    failure connection_not_closed c.connection_closes ++ failure file_not_closed c.handler_closes
failures c other_handler = failure connection_not_closed c.connection_closes

-- A collector that finds its context done.
unfoldable pub end_collector {ℓ} : {S : Type ℓ} → Pool S → Pool S
end_collector p = if p.running then record p { running = false; stats = none } else p

module _ {ℓ} {L : Lru} {S : Type ℓ} where
  -- `cancel` ends the context of `newMySQL` alone.
  unfoldable pub cancel : Database L S → Database L S
  cancel db =
      if db.own_context then record db { pool = record db.pool { cancelled = true } } else db

  -- `wg.Wait()`: the goroutines that are counted end once they find their context done (`none`: they do not);
  -- it does not wait for one that is still to start.
  unfoldable pub wait : Database L S → Option (Database L S)
  unfolding end_collector
  wait db =
      if db.pool.cancelled
      then some (record db { keep_alive = joined db.keep_alive; pool = end_collector db.pool })
      else if is_running db.keep_alive || db.pool.running
      then none
      else some db

  -- The rest of `Close`, with the recorder as the deferred `Stop` leaves it.
  unfoldable pub shut : AsyncDbMetrics → Database L S → Database L S
  unfolding set_db_metrics_enable clear
  shut recorder db = record db {
    pool = set_db_metrics_enable false db.pool;
    struct_fields_cache = clear db.struct_fields_cache;
    placeholder_cache = clear db.placeholder_cache;
    closed = true;
    async_db_metrics = recorder;
  }

  -- `Close`, with no step of another goroutine between its own.
  unfoldable pub close : Closing → Database L S → Database L S × CloseResult
  unfolding cancel wait shut stop failures
  close c db = if db.closed then (db, returned []) else elim (wait (cancel db)) [
    | none ↦ (cancel db, waiting)
    | some ready ↦ elim (stop ready.async_db_metrics) [
      | none ↦ (shut ready.async_db_metrics ready, close_panics)
      | some recorder ↦ (shut recorder ready, returned (failures c db.handler))
    ]
  ]

-- What happens to an open `DB` between `New` and `Close`, but for `WithContext`.
module _ {ℓ} {L : Lru} {S : Type ℓ} (sum32 : Text → ℕ) (to_lower : Text → Text) where
  pub data Step (db : Database L S) : Database L S → Type ℓ where
    pool_moves : {p : Pool S} → Pool.Step db.pool p → Step db (record db { pool = p })
    keep_alive_starts : db.keep_alive ≡ not_started → Step db (record db { keep_alive = running })
    keep_alive_ends :
        db.keep_alive ≡ running
        → db.pool.cancelled ≡ true
        → Step db (record db { keep_alive = ended })
    metric_recorded :
        (m : Metric) → Step db (record db { async_db_metrics = call m db.async_db_metrics })
    worker_runs :
        {am : AsyncDbMetrics}
        → work db.async_db_metrics ≡ some am
        → Step db (record db { async_db_metrics = am })
    fields_cached :
        (c : Call)
        → Step db
            (record db { struct_fields_cache = (call_cache sum32 c db.struct_fields_cache).0 })
    placeholder_cached :
        (c : Call)
        → Step db (record db { placeholder_cache = (call_cache sum32 c db.placeholder_cache).0 })
    level_set :
        (text : Text)
        → Step db (record db { log_level = (set_log_level to_lower text db.log_level).0 })
    debug_set : (debug : Bool) → Step db (set_debug debug db)

  -- Any number of these.
  pub data Steps (db : Database L S) : Database L S → Type ℓ where
    here : Steps db db
    next : {db' db'' : Database L S} → Steps db db' → Step db' db'' → Steps db db''
