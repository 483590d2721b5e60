-- ===== src/Metrics/Async/InOrder.antt =====
-- The order in which the buffered metrics are applied.
use xlorm.Common.{
  ℕ, ◌<◌, ◌≡◌, ◌%◌, refl, ap, ◌∙◌, sym, ◌≤◌, subst, List, [], ◌∷◌, ◌++◌, true, some, ℤ,
  if◌then◌else◌, length, length-append, append_assoc, append-nil, arith, Bool-cases, inl, inr,
  u64_mod,
}
use mathlib.Core.Option.{some-injective}
use xlorm.Text.{Text}
use xlorm.Effects.{Metric, query_duration, affected_rows, error, slow}
use xlorm.Metrics.Ring.Refine.{Holds, push, pop, drop_oldest}
use xlorm.Metrics.Store.{new_db_metrics, apply_all}
use xlorm.Metrics.Async.{
  AsyncDbMetrics, buffer_places, new_async_db_metrics, Action, calling, working, stopping, run,
}
use xlorm.Metrics.Async.Account.{
  Account, start, calls, oldest, put, take_one, step, account, Agrees,
}
use xlorm.Metrics.Async.Conservation.{account-known}
use xlorm.Metrics.Async.Delivery.{run-accounted, some_place}
use xlorm.Metrics.Async.Stops.{run-stops}
use xlorm.Metrics.Async.Steps.{if-true, if-false}

-- The metrics that go through the buffer.
unfoldable pub through : List Metric → List Metric
through [] = []
through (query_duration q d ∷ fs) = query_duration q d ∷ through fs
through (affected_rows rows ∷ fs) = through fs
through (error ∷ fs) = error ∷ through fs
through (slow ∷ fs) = slow ∷ through fs

through-append : (fs gs : List Metric) → through (fs ++ gs) ≡ through fs ++ through gs
unfolding through
through-append [] gs = refl
through-append (query_duration q d ∷ fs) gs =
    ap (λ hs. query_duration q d ∷ hs) (through-append fs gs)
through-append (affected_rows rows ∷ fs) gs = through-append fs gs
through-append (error ∷ fs) gs = ap (λ hs. error ∷ hs) (through-append fs gs)
through-append (slow ∷ fs) gs = ap (λ hs. slow ∷ hs) (through-append fs gs)

-- Those applied, and behind them those that wait.
abbrev pub kept : Account → List Metric
kept a = through (a.applied ++ a.waiting)

put-lost : (size : ℕ) (f : Metric) (a : Account) → length a.lost ≤ length (put size f a).lost
unfolding put
put-lost size f a = ground (arith, length-append a.lost (oldest a.waiting))

take_one-lost : (a : Account) → length a.lost ≤ length (take_one a).lost
unfolding take_one
take_one-lost a = ground arith

push-kept :
    (size : ℕ) (f : Metric) (q lost : List Metric)
    → 0 < size
    → length (if (push size q f).1 then lost else lost ++ oldest q) ≡ 0
    → (push size q f).0 ≡ q ++ f ∷ []
unfolding push drop_oldest oldest
push-kept size f [] lost h e = ground arith
push-kept size f (g ∷ q) lost h e = ground (arith, length-append lost (g ∷ []))

put-kept :
    (size : ℕ) (f : Metric) (a : Account)
    → 0 < size
    → length (put size f a).lost ≡ 0
    → kept (put size f a) ≡ kept a ++ through (f ∷ [])
unfolding put
put-kept size f a h e =
    ap (λ q. through (a.applied ++ q)) (push-kept size f a.waiting a.lost h e)
    ∙ ap through (sym (append_assoc a.applied a.waiting (f ∷ [])))
    ∙ through-append (a.applied ++ a.waiting) (f ∷ [])

pop-kept : (applied q : List Metric) → applied ++ oldest q ++ (pop q).0 ≡ applied ++ q
unfolding pop oldest
pop-kept applied [] = append-nil (applied ++ [])
pop-kept applied (f ∷ q) = append_assoc applied (f ∷ []) q

take_one-kept : (a : Account) → kept (take_one a) ≡ kept a
unfolding take_one
take_one-kept a = elim (Bool-cases a.closed) [
  | inl e ↦
      rw
        (if-true _ a
          (record a { waiting = (pop a.waiting).0; applied = a.applied ++ oldest a.waiting }) e)
        refl
  | inr e ↦ ap kept (if-false _ a _ e) ∙ ap through (pop-kept a.applied a.waiting)
]

direct-kept :
    (rows : ℤ) (a : Account)
    → kept (record a { applied = a.applied ++ affected_rows rows ∷ [] }) ≡ kept a
unfolding through
direct-kept rows a =
    ap through (append_assoc a.applied (affected_rows rows ∷ []) a.waiting)
    ∙ through-append a.applied (affected_rows rows ∷ a.waiting)
    ∙ sym (through-append a.applied a.waiting)

account-lost :
    (size : ℕ) (acts : List Action) (a : Account)
    → length a.lost ≤ length (account size acts a).lost
unfolding account step
account-lost size [] a = omega arith
account-lost size (calling (query_duration q d) ∷ acts) a = omega (
  arith,
  account-lost size acts (put size (query_duration q d) a),
  put-lost size (query_duration q d) a,
)
account-lost size (calling (affected_rows rows) ∷ acts) a =
    account-lost size acts (record a { applied = a.applied ++ affected_rows rows ∷ [] })
account-lost size (calling error ∷ acts) a =
    omega (arith, account-lost size acts (put size error a), put-lost size error a)
account-lost size (calling slow ∷ acts) a =
    omega (arith, account-lost size acts (put size slow a), put-lost size slow a)
account-lost size (working ∷ acts) a =
    omega (arith, account-lost size acts (take_one a), take_one-lost a)
account-lost size (stopping ∷ acts) a = account-lost size acts (record a { closed = true })

module _ (size : ℕ) (h : 0 < size) where
  put-account-kept :
      (f : Metric) (acts : List Action) (a : Account)
      → length (account size acts (put size f a)).lost ≡ 0
      → kept (account size acts (put size f a)) ≡ kept (put size f a) ++ through (calls acts)
      → kept (account size acts (put size f a)) ≡ kept a ++ through (f ∷ calls acts)
  put-account-kept f acts a e ih =
      ih
      ∙ ap (λ fs. fs ++ through (calls acts))
          (put-kept size f a h (omega (arith, account-lost size acts (put size f a))))
      ∙ append_assoc (kept a) (through (f ∷ [])) (through (calls acts))
      ∙ ap (λ fs. kept a ++ fs) (sym (through-append (f ∷ []) (calls acts)))

  account-kept :
      (acts : List Action) (a : Account)
      → length (account size acts a).lost ≡ 0
      → kept (account size acts a) ≡ kept a ++ through (calls acts)
  unfolding account step calls through
  account-kept [] a e = sym (append-nil (kept a))
  account-kept (calling (query_duration q d) ∷ acts) a e =
      put-account-kept (query_duration q d) acts a e
        (account-kept acts (put size (query_duration q d) a) e)
  account-kept (calling (affected_rows rows) ∷ acts) a e =
      account-kept acts (record a { applied = a.applied ++ affected_rows rows ∷ [] }) e
      ∙ ap (λ fs. fs ++ through (calls acts)) (direct-kept rows a)
  account-kept (calling error ∷ acts) a e =
      put-account-kept error acts a e (account-kept acts (put size error a) e)
  account-kept (calling slow ∷ acts) a e =
      put-account-kept slow acts a e (account-kept acts (put size slow a) e)
  account-kept (working ∷ acts) a e =
      account-kept acts (take_one a) e ∙ ap (λ fs. fs ++ through (calls acts)) (take_one-kept a)
  account-kept (stopping ∷ acts) a e = account-kept acts (record a { closed = true }) e

no_drop : (d n bound : ℕ) → d ≡ n % u64_mod → d ≡ 0 → n ≤ bound → bound < u64_mod → n ≡ 0
no_drop d n bound e z le lt = omega arith

-- If a schedule with fewer than 2^64 calls ends with a dropped count of 0, then the applied metrics and
-- behind them the waiting ones are those of the calls, in the order of the calls. The counts of affected
-- rows are left out: their calls do not go through the buffer.
pub run-in_order :
    (dbname : Text) (n : ℤ) (acts : List Action) (am : AsyncDbMetrics)
    → run acts (new_async_db_metrics dbname n) ≡ some am
    → am.dropped_metrics ≡ 0
    → length (calls acts) < u64_mod
    → (applied : List Metric) × (waiting : List Metric) × (am.db_metrics
        ≡ apply_all applied (new_db_metrics dbname))
      × Holds am.buffer waiting
      × (through (applied ++ waiting) ≡ through (calls acts))
unfolding through
run-in_order dbname n acts am e none_dropped few =
    let size = buffer_places n in
    let a = account size acts start in
    let once = run-stops acts (new_async_db_metrics dbname n) am e in
    let (am', e', h) = run-accounted dbname n acts (omega (arith, once)) in
    let h : Agrees dbname size am a =
      subst (λ m. Agrees dbname size m a) (some-injective am' am (sym e' ∙ e)) h in
    let none_lost : length a.lost ≡ 0 =
      no_drop am.dropped_metrics (length a.lost) (length (calls acts)) h.counted none_dropped
        (omega (arith, account-known size acts start (some_place n))) few in
    (
      a.applied,
      a.waiting,
      h.worked,
      h.buffered,
      account-kept size (some_place n) acts start none_lost,
    )
