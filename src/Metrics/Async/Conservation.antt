-- ===== src/Metrics/Async/Conservation.antt =====
-- No recorded metric disappears unaccounted, and none overtakes another.
use xlorm.Common.{
  ℕ, ◌+◌, ◌<◌, ◌≡◌, List, [], ◌∷◌, ◌++◌, true, if◌then◌else◌, length, length-append, arith,
}
use xlorm.Text.{Text}
use xlorm.Effects.{Metric, query_duration, affected_rows, error, slow}
use xlorm.Metrics.Ring.Refine.{push, pop, drop_oldest, length-snoc}
use xlorm.Metrics.Async.{Action, calling, working, stopping}
use xlorm.Metrics.Async.Account.{Account, calls, oldest, put, take_one, step, account}

-- How many metrics an account knows.
abbrev pub known : Account → ℕ
known a = length a.waiting + length a.applied + length a.lost

push-known :
    (size : ℕ) (f : Metric) (q lost : List Metric)
    → 0 < size
    → length (push size q f).0 + length (if (push size q f).1 then lost else lost ++ oldest q)
      ≡ length q + length lost + 1
unfolding push drop_oldest oldest
push-known size f [] lost h = ground arith
push-known size f (g ∷ q) lost h = ground (arith, length-snoc q f, length-append lost (g ∷ []))

put-known : (size : ℕ) (f : Metric) (a : Account) → 0 < size → known (put size f a) ≡ known a + 1
unfolding put
put-known size f a h = omega (arith, push-known size f a.waiting a.lost h)

pop-known :
    (q applied : List Metric)
    → length (pop q).0 + length (applied ++ oldest q) ≡ length q + length applied
unfolding pop oldest
pop-known [] applied = omega (arith, length-append applied [])
pop-known (f ∷ q) applied = omega (arith, length-append applied (f ∷ []))

take_one-known : (a : Account) → known (take_one a) ≡ known a
unfolding take_one
take_one-known a = ground (arith, pop-known a.waiting a.applied)

pub account-known :
    (size : ℕ) (acts : List Action) (a : Account)
    → 0 < size
    → known (account size acts a) ≡ known a + length (calls acts)
unfolding account step calls
account-known size [] a h = omega arith
account-known size (calling (query_duration q d) ∷ acts) a h = omega (
  arith,
  account-known size acts (put size (query_duration q d) a) h,
  put-known size (query_duration q d) a h,
)
account-known size (calling (affected_rows rows) ∷ acts) a h = omega (
  arith,
  account-known size acts (record a { applied = a.applied ++ affected_rows rows ∷ [] }) h,
  length-snoc a.applied (affected_rows rows),
)
account-known size (calling error ∷ acts) a h =
    omega (arith, account-known size acts (put size error a) h, put-known size error a h)
account-known size (calling slow ∷ acts) a h =
    omega (arith, account-known size acts (put size slow a) h, put-known size slow a h)
account-known size (working ∷ acts) a h =
    omega (arith, account-known size acts (take_one a) h, take_one-known a)
account-known size (stopping ∷ acts) a h = account-known size acts (record a { closed = true }) h
