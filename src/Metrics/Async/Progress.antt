-- ===== src/Metrics/Async/Progress.antt =====
-- The worker comes to every metric, if it is given enough rounds.
use xlorm.Common.{
  ℕ, zero, suc, ◌≤◌, ◌≡◌, refl, sym, ap, ◌∙◌, List, [], ◌∷◌, ◌++◌, Bool, true, false, some, ℤ,
  length, replicate, append_assoc, append-nil, arith, subst,
}
use xlorm.Text.{Text}
use xlorm.Effects.{Metric, query_duration, affected_rows, error, slow}
use xlorm.Metrics.Ring.Refine.{pop}
use xlorm.Metrics.Async.{
  AsyncDbMetrics, buffer_places, new_async_db_metrics, Action, calling, working, stopping, run,
}
use xlorm.Metrics.Async.Account.{
  Account, start, oldest, put, take_one, step, account, Agrees, stops,
}
use xlorm.Metrics.Async.Delivery.{run-accounted}

unfoldable pub has_stop : List Action → Bool
has_stop [] = false
has_stop (calling f ∷ acts) = has_stop acts
has_stop (working ∷ acts) = has_stop acts
has_stop (stopping ∷ acts) = true

never_stops :
    (acts : List Action) (rounds : ℕ)
    → has_stop acts ≡ false
    → stops (acts ++ replicate rounds working) ≡ 0
unfolding stops has_stop
never_stops [] zero h = refl
never_stops [] (suc n) h = never_stops [] n refl
never_stops (calling f ∷ acts) rounds h = never_stops acts rounds h
never_stops (working ∷ acts) rounds h = never_stops acts rounds h
never_stops (stopping ∷ acts) rounds h = absurd (ground arith)

abbrev open_account : List Metric → List Metric → List Metric → Account
open_account waiting applied lost = record {
  waiting = waiting;
  applied = applied;
  lost = lost;
  closed = false;
}

module _ (size : ℕ) where
  step-open :
      (s : Action) (a : Account) (acts : List Action)
      → has_stop (s ∷ acts) ≡ false
      → ((step size s a).closed ≡ a.closed) × (has_stop acts ≡ false)
  unfolding step put take_one has_stop
  step-open (calling (query_duration q d)) a acts h = (refl, h)
  step-open (calling (affected_rows rows)) a acts h = (refl, h)
  step-open (calling error) a acts h = (refl, h)
  step-open (calling slow) a acts h = (refl, h)
  step-open working a acts h = (ground arith, h)
  step-open stopping a acts h = absurd (ground arith)

  account-open :
      (acts : List Action) (a : Account)
      → has_stop acts ≡ false
      → (account size acts a).closed ≡ a.closed
  unfolding account
  account-open [] a h = refl
  account-open (s ∷ acts) a h =
      let (same, rest) = step-open s a acts h in account-open acts (step size s a) rest ∙ same

  account-append :
      (xs ys : List Action) (a : Account)
      → account size (xs ++ ys) a ≡ account size ys (account size xs a)
  unfolding account
  account-append [] ys a = refl
  account-append (s ∷ xs) ys a = account-append xs ys (step size s a)

  -- Rounds of the worker apply what waits, one each.
  rounds_apply :
      (n : ℕ) (waiting applied lost : List Metric)
      → length waiting ≤ n
      → account size (replicate n working) (open_account waiting applied lost)
        ≡ open_account [] (applied ++ waiting) lost
  unfolding account step take_one pop oldest
  rounds_apply zero [] applied lost h =
      ap (λ fs. open_account [] fs lost) (sym (append-nil applied))
  rounds_apply zero (f ∷ fs) applied lost h = absurd (omega arith)
  rounds_apply (suc n) [] applied lost h =
      rounds_apply n [] (applied ++ []) lost (omega arith)
      ∙ ap (λ fs. open_account [] (fs ++ []) lost) (append-nil applied)
  rounds_apply (suc n) (f ∷ fs) applied lost h =
      rounds_apply n fs (applied ++ f ∷ []) lost (omega arith)
      ∙ ap (λ gs. open_account [] gs lost) (append_assoc applied (f ∷ []) fs)

module _ (dbname : Text) (n : ℤ) where
  waiting_fit :
      (acts : List Action)
      → has_stop acts ≡ false
      → length (account (buffer_places n) acts start).waiting ≤ buffer_places n
  waiting_fit acts no_stop =
      let (am, e, h) =
        run-accounted dbname n acts (
          subst (λ l. stops l ≤ 1) (append-nil acts) (omega (arith, never_stops acts 0 no_stop))) in
      omega (arith, h.buffered.as_many, h.buffered.fits, h.same_size)

  -- After any schedule without a stop, as many rounds of the worker as the buffer has places, or more, empty
  -- the buffer: then every metric that was not lost before is applied, the waiting ones behind the
  -- others, and none of them is lost.
  pub run-emptied :
      (acts : List Action) (rounds : ℕ)
      → has_stop acts ≡ false
      → buffer_places n ≤ rounds
      → let a = account (buffer_places n) acts start in
        (am : AsyncDbMetrics) × (run
            (acts ++ replicate rounds working)
            (new_async_db_metrics dbname n)
          ≡ some am)
        × Agrees dbname (buffer_places n) am (open_account [] (a.applied ++ a.waiting) a.lost)
  run-emptied acts rounds no_stop enough =
      let a = account (buffer_places n) acts start in
      let (am, e, h) =
        run-accounted dbname n (acts ++ replicate rounds working)
          (omega (arith, never_stops acts rounds no_stop)) in
      let still_open : (a.closed ≡ false) = account-open (buffer_places n) acts start no_stop in
      (
        am,
        e,
        subst (Agrees dbname (buffer_places n) am)
            (account-append (buffer_places n) acts (replicate rounds working) start
              ∙ ap
                  (λ closed.
                    account (buffer_places n) (replicate rounds working)
                      (record a { closed = closed }))
                  still_open
              ∙ rounds_apply (buffer_places n) rounds a.waiting a.applied a.lost
                  (omega (arith, waiting_fit acts no_stop)))
            h,
      )
