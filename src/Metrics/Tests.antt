-- ===== src/Metrics/Tests.antt =====
-- Runs of the ring buffer and of the recorder on small inputs.
use xlorm.Common.{◌≡◌, refl, List, [], ◌∷◌, ◌++◌, none, some, pos, arith, wrap64, replicate, ◌+ℤ◌}
use xlorm.Text.{Text, codes, eq_text}
use xlorm.Effects.{Metric, query_duration, affected_rows, error, slow}
use xlorm.Metrics.Ring.{new_ring_buffer, enqueue, dequeue}
use xlorm.Metrics.Ring.Refine.{Holds}
use xlorm.Metrics.Store.{new_db_metrics, apply_all, query_stats, QueryStats}
use xlorm.Metrics.Store.Sums.{sum_of}
use xlorm.Metrics.Store.Durations.{reported}
use xlorm.Metrics.Store.Stats.{IsSummary, stats_of, get_db_metrics-reported}
use xlorm.Metrics.Async.{
  AsyncDbMetrics, buffer_places, new_async_db_metrics, record_metric, call, work, act, run, Action,
  calling, working,
}
use xlorm.Metrics.Async.Account.{account, start, Agrees, calls, stops}
use xlorm.Metrics.Async.Delivery.{run-accounted}
use xlorm.Metrics.Async.Progress.{run-emptied, has_stop}
use xlorm.Metrics.Async.InOrder.{run-in_order, through}

abbrev metrics : List Metric
metrics =
    query_duration (codes "query") (pos 4)
    ∷ error
    ∷ query_duration [] (pos 3)
    ∷ query_duration (codes "query") (pos 7)
    ∷ []

get_db_metrics-reported_example :
    (stats : List (Text × QueryStats)) × (query_stats
        (apply_all metrics (new_db_metrics (codes "shop"))).query_durations
      ≡ some stats)
    × ((query_type : Text) → IsSummary (reported query_type metrics) (stats_of query_type stats))
get_db_metrics-reported_example = get_db_metrics-reported (codes "shop") metrics

query_IsSummary :
    IsSummary
      (reported (codes "query") metrics)
      (some (record { count = 2; total_time = pos 11; average_time = pos 5 }))
unfolding reported codes eq_text sum_of wrap64 ◌+ℤ◌
query_IsSummary = (refl, refl, refl, (5, refl, omega arith, omega arith))

-- Two places, three calls, one of them lost.
abbrev acts : List Action
acts = calling error ∷ calling slow ∷ calling (affected_rows (pos 2)) ∷ calling error ∷ working ∷ []

run-accounted_example :
    (am : AsyncDbMetrics) × (run acts (new_async_db_metrics (codes "shop") (pos 2)) ≡ some am)
    × Agrees (codes "shop") (buffer_places (pos 2)) am (account (buffer_places (pos 2)) acts start)
unfolding stops
run-accounted_example = run-accounted (codes "shop") (pos 2) acts (omega arith)

run-emptied_example :
    let a = account (buffer_places (pos 2)) acts start in
    (am : AsyncDbMetrics) × (run
        (acts ++ replicate 2 working)
        (new_async_db_metrics (codes "shop") (pos 2))
      ≡ some am)
    × Agrees
        (codes "shop")
        (buffer_places (pos 2))
        am
        (record start { applied = a.applied ++ a.waiting; lost = a.lost })
unfolding has_stop buffer_places
run-emptied_example = run-emptied (codes "shop") (pos 2) acts 2 refl (omega arith)

-- With three places nothing is lost.
final : AsyncDbMetrics
unfolding new_async_db_metrics new_ring_buffer new_db_metrics buffer_places run act call
    record_metric enqueue work dequeue
final = elim (run acts (new_async_db_metrics (codes "shop") (pos 3))) [
  | none ↦ new_async_db_metrics (codes "shop") (pos 3)
  | some am ↦ am
]

run-in_order_example :
    (applied : List Metric) × (waiting : List Metric) × (final.db_metrics
      ≡ apply_all applied (new_db_metrics (codes "shop")))
    × Holds final.buffer waiting
    × (through (applied ++ waiting) ≡ through (calls acts))
unfolding final calls
run-in_order_example = run-in_order (codes "shop") (pos 3) acts final refl refl (omega arith)
