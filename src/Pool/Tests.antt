-- ===== src/Pool/Tests.antt =====
-- A collector that starts and ticks.
use xlorm.Common.{ℕ, refl, true, false, some}
use xlorm.Pool.{
  Pool, new_pool, tick, Steps, here, next, collector_starts, collector_ticks, setter_runs,
  set_db_metrics_enable,
}

abbrev started : Pool ℕ
started = record (new_pool true) { starting = 0; running = true }

abbrev ticked : Pool ℕ
ticked = record started { stats = some 5 }

started-Steps : Steps (new_pool true) started
unfolding new_pool
started-Steps = next here (collector_starts _ 0 refl refl)

ticked-Steps : Steps started ticked
unfolding new_pool tick
ticked-Steps = next here (collector_ticks _ 5 refl)

-- Before it starts, the statistics can be switched off.
off_in_time : Steps {S = ℕ} (new_pool true) (set_db_metrics_enable false (new_pool true))
unfolding new_pool
off_in_time = next here (setter_runs _ false refl)
