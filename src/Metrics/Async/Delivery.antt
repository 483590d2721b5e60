-- ===== src/Metrics/Async/Delivery.antt =====
-- What becomes of the metrics that callers record: the recorder against the account.
use xlorm.Common.{
  ℕ, zero, suc, ◌+◌, ◌≤◌, ◌<◌, ◌≡◌, refl, ap, ◌∙◌, sym, List, [], ◌∷◌, Bool, true, false, none,
  some, ℤ, pos, negsuc, arith,
}
use xlorm.Text.{Text}
use xlorm.Effects.{query_duration, affected_rows, error, slow}
use xlorm.Metrics.Ring.{new_ring_buffer}
use xlorm.Metrics.Ring.Refine.{new_ring_buffer-Holds}
use xlorm.Metrics.Store.{new_db_metrics, apply, apply_all}
use xlorm.Metrics.Async.{
  AsyncDbMetrics, buffer_places, new_async_db_metrics, record_metric, call, stop, Action, calling,
  working, stopping, act, run,
}
use xlorm.Metrics.Async.Account.{
  Account, start, step, account, Agrees, stops, one_if, put, take_one,
}
use xlorm.Metrics.Async.Steps.{record_metric-Agrees, work-Agrees, apply_all-snoc, if-false}

none_before : (b : Bool) (n : ℕ) → (n + 1) + one_if b ≤ 1 → b ≡ false
none_before true n h = absurd (omega arith)
none_before false n h = refl

module _ (dbname : Text) (size : ℕ) where
  act-Agrees :
      (s : Action) (acts : List Action) (am : AsyncDbMetrics) (a : Account)
      → stops (s ∷ acts) + one_if a.closed ≤ 1
      → Agrees dbname size am a
      → (am' : AsyncDbMetrics) × (act s am ≡ some am')
        × Agrees dbname size am' (step size s a)
        × (stops acts + one_if (step size s a).closed ≤ 1)
  unfolding act call stop step stops put take_one
  act-Agrees (calling (query_duration q d)) acts am a few h = (
    record_metric (query_duration q d) am,
    refl,
    record_metric-Agrees dbname size (query_duration q d) am a h,
    few,
  )
  act-Agrees (calling (affected_rows rows)) acts am a few h = (
    record am { db_metrics = apply (affected_rows rows) am.db_metrics },
    refl,
    record {
      same_size = h.same_size;
      buffered = h.buffered;
      worked =
          ap (apply (affected_rows rows)) h.worked
          ∙ sym (apply_all-snoc a.applied (affected_rows rows) (new_db_metrics dbname));
      counted = h.counted;
      same_stop = h.same_stop;
    },
    few,
  )
  act-Agrees (calling error) acts am a few h =
      (record_metric error am, refl, record_metric-Agrees dbname size error am a h, few)
  act-Agrees (calling slow) acts am a few h =
      (record_metric slow am, refl, record_metric-Agrees dbname size slow am a h, few)
  act-Agrees working acts am a few h =
      let (am', e, h') = work-Agrees dbname size am a h in (am', e, h', ground (arith, few))
  act-Agrees stopping acts am a few h = (
    record am { stopped = true },
    if-false am.stopped none _ (h.same_stop ∙ none_before a.closed (stops acts) few),
    record {
      same_size = h.same_size;
      buffered = h.buffered;
      worked = h.worked;
      counted = h.counted;
      same_stop = refl;
    },
    omega (arith, few),
  )

  run-Agrees :
      (acts : List Action) (am : AsyncDbMetrics) (a : Account)
      → stops acts + one_if a.closed ≤ 1
      → Agrees dbname size am a
      → (am' : AsyncDbMetrics) × (run acts am ≡ some am')
        × Agrees dbname size am' (account size acts a)
  unfolding run account
  run-Agrees [] am a few h = (am, refl, h)
  run-Agrees (s ∷ acts) am a few h =
      let (am', e, h', few') = act-Agrees s acts am a few h in
      let (am'', e', h'') = run-Agrees acts am' (step size s a) few' h' in
      (am'', rw (e, run) e', h'')

pub some_place : (n : ℤ) → 0 < buffer_places n
unfolding buffer_places
some_place (pos zero) = omega arith
some_place (pos (suc n)) = omega arith
some_place (negsuc n) = omega arith

-- The new recorder has nothing to account for.
new-Agrees :
    (dbname : Text) (n : ℤ) → Agrees dbname (buffer_places n) (new_async_db_metrics dbname n) start
unfolding new_async_db_metrics new_ring_buffer apply_all
new-Agrees dbname n = record {
  same_size = refl;
  buffered = new_ring_buffer-Holds (buffer_places n) (some_place n);
  worked = refl;
  counted = omega arith;
  same_stop = refl;
}

-- Whatever the schedule of calls, worker rounds and at most one stop on a new recorder, nothing panics:
-- the worker calls no nil function, no closed channel is closed again, and the recorder is in the state of the account: the buffer holds the waiting metrics,
-- oldest first, the counters are those of the applied ones, one after the other, and the dropped count
-- is the number of the lost ones (modulo 2^64).
pub run-accounted :
    (dbname : Text) (n : ℤ) (acts : List Action)
    → stops acts ≤ 1
    → (am : AsyncDbMetrics) × (run acts (new_async_db_metrics dbname n) ≡ some am)
      × Agrees dbname (buffer_places n) am (account (buffer_places n) acts start)
run-accounted dbname n acts few =
    run-Agrees dbname (buffer_places n) acts (new_async_db_metrics dbname n) start
      (omega (arith, few)) (new-Agrees dbname n)
