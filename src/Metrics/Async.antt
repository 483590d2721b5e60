-- ===== src/Metrics/Async.antt =====
-- metrics.go: `asyncDBMetrics`. Callers put metrics into the ring buffer and one worker takes them out;
-- a schedule is the order in which their steps, each under the mutex, are made.
pub mod Account
pub mod Steps
pub mod Delivery
pub mod Conservation
pub mod Stops
pub mod InOrder
pub mod Progress
use xlorm.Common.{
  ℕ, zero, suc, ◌+◌, ◌%◌, List, [], ◌∷◌, Bool, true, false, if◌then◌else◌, Option, none, some, ℤ,
  pos, negsuc, u64_mod,
}
use xlorm.Text.{Text}
use xlorm.Effects.{Metric, query_duration, affected_rows, error, slow}
use xlorm.Metrics.Ring.{RingBuffer, new_ring_buffer, enqueue, dequeue}
use xlorm.Metrics.Store.{DbMetrics, new_db_metrics, apply}

-- `asyncDBMetrics`; `stopped` is the closed channel.
pub record AsyncDbMetrics : Type 0 where
  pub buffer : RingBuffer Metric
  pub stopped : Bool
  pub db_metrics : DbMetrics
  pub dropped_metrics : ℕ

-- The size of the buffer that `newAsyncDBMetrics` makes.
unfoldable pub buffer_places : ℤ → ℕ
buffer_places (pos zero) = 1000
buffer_places (pos (suc n)) = suc n
buffer_places (negsuc n) = 1000

-- `newAsyncDBMetrics`
unfoldable pub new_async_db_metrics : Text → ℤ → AsyncDbMetrics
unfolding new_ring_buffer new_db_metrics buffer_places
new_async_db_metrics dbname buffer_size = record {
  buffer = new_ring_buffer (buffer_places buffer_size);
  stopped = false;
  db_metrics = new_db_metrics dbname;
  dropped_metrics = 0;
}

-- `recordMetric`
unfoldable pub record_metric : Metric → AsyncDbMetrics → AsyncDbMetrics
record_metric f am =
    let (buffer, kept) = enqueue am.buffer f in
    if kept
    then record am { buffer = buffer }
    else record am { buffer = buffer; dropped_metrics = (am.dropped_metrics + 1) % u64_mod }

-- A call of the recorder: `RecordQueryDuration`, `RecordError` and `RecordSlowQuery` go through the
-- buffer, and `RecordAffectedRows` is the one of the embedded `dbMetrics`.
unfoldable pub call : Metric → AsyncDbMetrics → AsyncDbMetrics
unfolding record_metric apply
call (query_duration query_type duration) am = record_metric (query_duration query_type duration) am
call (affected_rows rows) am = record am { db_metrics = apply (affected_rows rows) am.db_metrics }
call error am = record_metric error am
call slow am = record_metric slow am

-- What the worker does with the answer of `Dequeue`; the call of a nil function is a panic, `none`.
abbrev pub handle : AsyncDbMetrics → Option (Option Metric) → Option AsyncDbMetrics
handle am none = some am
handle am (some none) = none
handle am (some (some f)) = some (record am { db_metrics = apply f am.db_metrics })

-- One round of the loop of `start`.
unfoldable pub work : AsyncDbMetrics → Option AsyncDbMetrics
work am =
    let (buffer, item) = dequeue am.buffer in
    if am.stopped then some am else handle (record am { buffer = buffer }) item

-- `Stop`; closing the closed channel is a panic, `none`.
unfoldable pub stop : AsyncDbMetrics → Option AsyncDbMetrics
stop am = if am.stopped then none else some (record am { stopped = true })

pub data Action : Type 0 where
  calling : Metric → Action
  working : Action
  stopping : Action

unfoldable pub act : Action → AsyncDbMetrics → Option AsyncDbMetrics
unfolding call work stop
act (calling f) am = some (call f am)
act working am = work am
act stopping am = stop am

-- A schedule.
unfoldable pub run : List Action → AsyncDbMetrics → Option AsyncDbMetrics
unfolding act
run [] am = some am
run (a ∷ acts) am = elim (act a am) [ none ↦ none | some am' ↦ run acts am' ]
