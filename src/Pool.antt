-- ===== src/Pool.antt =====
-- xlorm.go and pool.go: the statistics of the connection pool, `SetDBMetricsEnable`, the goroutine
-- `collectPoolStats` and `poolStats`, as steps in any order. A call of SetDBMetricsEnable is one step, since it
-- holds the mutex from its beginning to its end; the collector holds the same mutex as long as it runs. What
-- the package sql counts is a value of `S`.
pub mod Stuck
mod Tests
use xlorm.Common.{ℕ, ◌+◌, ◌≡◌, Bool, true, false, if◌then◌else◌, Option, none, some}

-- `Stats` are the zero statistics that `init` stores (`none`), or those of a tick.
pub record Pool {ℓ} (S : Type ℓ) : Type ℓ where
  pub enabled : Bool
  pub starting : ℕ
  pub running : Bool
  pub stop_closed : Bool
  pub cancelled : Bool
  pub stats : Option S
  pub returned : ℕ

module _ {ℓ} {S : Type ℓ} where
  -- What `newMySQL` makes, before its deferred cancel: with statistics, a goroutine that is to start.
  unfoldable pub new_pool : Bool → Pool S
  new_pool enable = record {
    enabled = enable;
    starting = if enable then 1 else 0;
    running = false;
    stop_closed = false;
    cancelled = false;
    stats = none;
    returned = 0;
  }

  -- `SetDBMetricsEnable` under the mutex: to disable, it closes the channel and makes a new one.
  unfoldable pub set_db_metrics_enable : Bool → Pool S → Pool S
  set_db_metrics_enable true s =
      if s.enabled
      then record s { returned = s.returned + 1 }
      else record s { enabled = true; starting = s.starting + 1; returned = s.returned + 1 }
  set_db_metrics_enable false s =
      if s.enabled
      then record s {
        enabled = false;
        stop_closed = false;
        stats = none;
        returned = s.returned + 1;
      }
      else record s { returned = s.returned + 1 }

  -- A tick of a collector that holds the mutex.
  unfoldable pub tick : S → Pool S → Pool S
  tick stats s = if s.enabled then record s { stats = some stats } else record s { running = false }

  pub data Step : Pool S → Pool S → Type ℓ where
    setter_runs :
        (s : Pool S) (enable : Bool) → s.running ≡ false → Step s (set_db_metrics_enable enable s)
    collector_starts :
        (s : Pool S) (n : ℕ)
        → s.running ≡ false
        → s.starting ≡ n + 1
        → Step s (record s { starting = n; running = true; stats = none })
    collector_ticks : (s : Pool S) (stats : S) → s.running ≡ true → Step s (tick stats s)
    collector_stops :
        (s : Pool S)
        → s.running ≡ true
        → s.stop_closed ≡ true
        → Step s (record s { running = false; stats = none })
    collector_ends :
        (s : Pool S)
        → s.running ≡ true
        → s.cancelled ≡ true
        → Step s (record s { running = false; stats = none })
    context_ends : (s : Pool S) → Step s (record s { cancelled = true })

  -- Any number of steps.
  pub data Steps (s : Pool S) : Pool S → Type ℓ where
    here : Steps s s
    next : {t u : Pool S} → Steps s t → Step t u → Steps s u
