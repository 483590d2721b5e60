-- ===== src/Metrics/Async/Account.antt =====
-- What becomes of the metrics that callers record: where each of them is after a schedule.
use xlorm.Common.{
  ℕ, ◌+◌, ◌≡◌, ◌%◌, List, [], ◌∷◌, ◌++◌, Bool, true, false, if◌then◌else◌, length, u64_mod,
}
use xlorm.Text.{Text}
use xlorm.Effects.{Metric, query_duration, affected_rows, error, slow}
use xlorm.Metrics.Ring.Refine.{Holds, push, pop}
use xlorm.Metrics.Store.{new_db_metrics, apply_all}
use xlorm.Metrics.Async.{AsyncDbMetrics, Action, calling, working, stopping}

-- Where each recorded metric is: waiting, applied, or lost, in the order in which it got there.
pub record Account : Type 0 where
  pub waiting : List Metric
  pub applied : List Metric
  pub lost : List Metric
  pub closed : Bool

abbrev pub start : Account
start = record { waiting = []; applied = []; lost = []; closed = false }

-- The metrics of the calls of a schedule.
unfoldable pub calls : List Action → List Metric
calls [] = []
calls (calling f ∷ acts) = f ∷ calls acts
calls (working ∷ acts) = calls acts
calls (stopping ∷ acts) = calls acts

-- The stops of a schedule.
unfoldable pub stops : List Action → ℕ
stops [] = 0
stops (calling f ∷ acts) = stops acts
stops (working ∷ acts) = stops acts
stops (stopping ∷ acts) = stops acts + 1

-- The number of stops before.
abbrev pub one_if : Bool → ℕ
one_if b = if b then 1 else 0

unfoldable pub oldest : List Metric → List Metric
oldest [] = []
oldest (f ∷ fs) = f ∷ []

-- A metric that goes through the buffer: when that is full, its oldest one is lost.
unfoldable pub put : ℕ → Metric → Account → Account
put size f a = record a {
  waiting = (push size a.waiting f).0;
  lost = if (push size a.waiting f).1 then a.lost else a.lost ++ oldest a.waiting;
}

unfoldable pub take_one : Account → Account
take_one a =
    if a.closed
    then a
    else record a { waiting = (pop a.waiting).0; applied = a.applied ++ oldest a.waiting }

unfoldable pub step : ℕ → Action → Account → Account
unfolding put take_one
step size (calling (query_duration q d)) a = put size (query_duration q d) a
step size (calling (affected_rows rows)) a = record a {
  applied = a.applied ++ affected_rows rows ∷ [];
}
step size (calling error) a = put size error a
step size (calling slow) a = put size slow a
step size working a = take_one a
step size stopping a = record a { closed = true }

unfoldable pub account : ℕ → List Action → Account → Account
unfolding step
account size [] a = a
account size (s ∷ acts) a = account size acts (step size s a)

-- The recorder is in the state that the account says.
pub record Agrees (dbname : Text) (size : ℕ) (am : AsyncDbMetrics) (a : Account) : Type 0 where
  pub same_size : am.buffer.size ≡ size
  pub buffered : Holds am.buffer a.waiting
  pub worked : am.db_metrics ≡ apply_all a.applied (new_db_metrics dbname)
  pub counted : am.dropped_metrics ≡ length a.lost % u64_mod
  pub same_stop : am.stopped ≡ a.closed
