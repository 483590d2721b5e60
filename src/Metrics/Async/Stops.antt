-- ===== src/Metrics/Async/Stops.antt =====
-- How often a recorder is stopped: a second stop panics.
use xlorm.Common.{
  ℕ, ◌+◌, Option, Bool, none, ◌≢◌, false, ◌≡◌, refl, ap, ◌∙◌, sym, ◌≤◌, subst, List, [], ◌∷◌, true,
  some, arith, Bool-cases, inl, inr,
}
use mathlib.Core.Option.{some-injective}
use xlorm.Effects.{Metric, query_duration, affected_rows, error, slow}
use xlorm.Metrics.Ring.{dequeue}
use xlorm.Metrics.Store.{apply}
use xlorm.Metrics.Async.{
  AsyncDbMetrics, Action, calling, working, stopping, run, work, call, record_metric, stop, act,
  handle,
}
use xlorm.Metrics.Async.Account.{stops, one_if}
use xlorm.Metrics.Async.Steps.{if-true, if-false}

-- A call and a round of the worker leave the channel as it is.
handle-stopped :
    (am am' : AsyncDbMetrics) (item : Option (Option Metric))
    → handle am item ≡ some am'
    → am'.stopped ≡ am.stopped
handle-stopped am am' none e = ap (λ m. m.stopped) (sym (some-injective am am' e))
handle-stopped am am' (some none) e = absurd cc
handle-stopped am am' (some (some f)) e =
    ap (λ m. m.stopped)
      (sym (some-injective (record am { db_metrics = apply f am.db_metrics }) am' e))

pub work-stopped : (am am' : AsyncDbMetrics) → work am ≡ some am' → am'.stopped ≡ am.stopped
unfolding work
work-stopped am am' e = elim (Bool-cases am.stopped) [
  | inl s ↦ ap (λ m. m.stopped) (sym (some-injective am am' (sym (if-true _ _ _ s) ∙ e)))
  | inr s ↦
      handle-stopped (record am { buffer = (dequeue am.buffer).0 }) am' (dequeue am.buffer).1
        (sym (if-false _ (some am) _ s) ∙ e)
]

pub call-stopped : (f : Metric) (am : AsyncDbMetrics) → (call f am).stopped ≡ am.stopped
unfolding call record_metric
call-stopped (query_duration q d) am = ground arith
call-stopped (affected_rows rows) am = refl
call-stopped error am = ground arith
call-stopped slow am = ground arith

stop-stopped :
    (am am' : AsyncDbMetrics) → stop am ≡ some am' → (am.stopped ≡ false) × (am'.stopped ≡ true)
unfolding stop
stop-stopped am am' e = elim (Bool-cases am.stopped) [
  | inl s ↦ absurd (none-ne-some (sym (if-true _ none _ s) ∙ e))
  | inr s ↦ (
    s,
    ap (λ m. m.stopped)
        (sym (some-injective (record am { stopped = true }) am' (sym (if-false _ none _ s) ∙ e))),
  )
]
  where
    none-ne-some : {m : AsyncDbMetrics} → none ≢ some m
    none-ne-some e = cc

last_stop : {b c : Bool} (n : ℕ) → b ≡ false → c ≡ true → n + one_if c ≤ 1 → (n + 1) + one_if b ≤ 1
last_stop {b} {c} n o s h =
    subst (λ b. (n + 1) + one_if b ≤ 1) (sym o) (omega (arith, subst (λ c. n + one_if c ≤ 1) s h))

went_on :
    (acts : List Action) (first : Option AsyncDbMetrics) (am' : AsyncDbMetrics)
    → (elim first as (λ o. Option AsyncDbMetrics) [ none ↦ none | some m ↦ run acts m ]) ≡ some am'
    → (mid : AsyncDbMetrics) × (first ≡ some mid) × (run acts mid ≡ some am')
went_on acts none am' e = absurd cc
went_on acts (some m) am' e = (m, refl, e)

-- A schedule that goes through stops the recorder once at most.
pub run-stops :
    (acts : List Action) (am am' : AsyncDbMetrics)
    → run acts am ≡ some am'
    → stops acts + one_if am.stopped ≤ 1
unfolding run act stops stop
run-stops [] am am' e = ground arith
run-stops (calling f ∷ acts) am am' e =
    subst (λ b. stops acts + one_if b ≤ 1) (call-stopped f am) (run-stops acts (call f am) am' e)
run-stops (working ∷ acts) am am' e =
    let (mid, w, rest) = went_on acts (work am) am' e in
    subst (λ b. stops acts + one_if b ≤ 1) (work-stopped am mid w) (run-stops acts mid am' rest)
run-stops (stopping ∷ acts) am am' e =
    let (mid, w, rest) = went_on acts (stop am) am' e in
    let (open_before, closed_after) = stop-stopped am mid w in
    last_stop (stops acts) open_before closed_after (run-stops acts mid am' rest)
