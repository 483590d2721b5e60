-- ===== src/Transaction/Ends.antt =====
-- How often a transaction is committed and rolled back.
use xlorm.Common.{
  pos, ℕ, ◌+◌, ◌≡◌, refl, [], ◌∷◌, ◌++◌, Bool, true, false, if◌then◌else◌, arith, Bool-cases, inl,
  inr, ◌==◌,
}
use xlorm.Text.{codes}
use xlorm.Effects.{
  Env, Event, Trace, ◌▷◌, tx_begin, tx_commit, tx_rollback, metric, log, Metric, query_duration,
  error, panic_rollback, rollback_failed,
}
use xlorm.Transaction.{
  FnResult, fn_done, fn_failed, fn_panics, TxResult, begin, commit, rollback, finish_tx, exec_tx,
  committed,
}

abbrev one_commit : Event → ℕ
one_commit tx_commit = 1
one_commit e = 0

abbrev one_rollback : Event → ℕ
one_rollback tx_rollback = 1
one_rollback e = 0

-- The number of commits, and of rollbacks, that were sent.
unfoldable pub commits : Trace → ℕ
commits [] = 0
commits (e ∷ es) = one_commit e + commits es

unfoldable pub rollbacks : Trace → ℕ
rollbacks [] = 0
rollbacks (e ∷ es) = one_rollback e + rollbacks es

-- From one trace to a later one, `c` commits and `r` rollbacks were sent.
pub record Ends (past after : Trace) (c r : ℕ) : Type 0 where
  pub by_commits : commits after ≡ commits past + c
  pub by_rollbacks : rollbacks after ≡ rollbacks past + r

pub commits-append : (es fs : Trace) → commits (es ++ fs) ≡ commits es + commits fs
unfolding commits
commits-append [] fs = omega arith
commits-append (e ∷ es) fs = omega (arith, commits-append es fs)

pub rollbacks-append : (es fs : Trace) → rollbacks (es ++ fs) ≡ rollbacks es + rollbacks fs
unfolding rollbacks
rollbacks-append [] fs = omega arith
rollbacks-append (e ∷ es) fs = omega (arith, rollbacks-append es fs)

pub Ends-refl : (past : Trace) → Ends past past 0 0
Ends-refl past = record { by_commits = omega arith; by_rollbacks = omega arith }

pub Ends-trans :
    {a b c : Trace} {k l m n : ℕ} → Ends a b k l → Ends b c m n → Ends a c (k + m) (l + n)
Ends-trans h i = record {
  by_commits = omega (arith, h.by_commits, i.by_commits);
  by_rollbacks = omega (arith, h.by_rollbacks, i.by_rollbacks);
}

-- Events that end no transaction, and then others.
pub Ends-after : {a b c : Trace} {m n : ℕ} → Ends a b 0 0 → Ends b c m n → Ends a c m n
Ends-after h i = record {
  by_commits = omega (arith, h.by_commits, i.by_commits);
  by_rollbacks = omega (arith, h.by_rollbacks, i.by_rollbacks);
}

pub Ends-event : (past : Trace) (e : Event) → Ends past (past ▷ e) (one_commit e) (one_rollback e)
unfolding commits rollbacks
Ends-event past e = record {
  by_commits = omega (arith, commits-append past (e ∷ []));
  by_rollbacks = omega (arith, rollbacks-append past (e ∷ []));
}

-- An event, and a metric of what came of it.
pub Ends-counted :
    (past : Trace) (e : Event) (f : Metric)
    → Ends past (past ▷ e ▷ metric f) (one_commit e) (one_rollback e)
Ends-counted past e f = record {
  by_commits = omega (arith, Ends-event past e, Ends-event (past ▷ e) (metric f));
  by_rollbacks = omega (arith, Ends-event past e, Ends-event (past ▷ e) (metric f));
}

module _ (env : Env) where
  pub begin-Ends : (past : Trace) → Ends past (begin env past).0 0 0
  unfolding begin
  begin-Ends past = elim (Bool-cases (env.begin_ok (past ▷ tx_begin))) [
    | inl e ↦ rw e (
        Ends-counted past tx_begin
          (query_duration (codes "begin_transaction") (pos (env.elapsed (past ▷ tx_begin)))))
    | inr e ↦ rw e (Ends-counted past tx_begin error)
  ]

  pub commit-Ends : (past : Trace) → Ends past (commit env past).0 1 0
  unfolding commit
  commit-Ends past = elim (Bool-cases (env.commit_ok (past ▷ tx_commit))) [
    | inl e ↦ rw e (
        Ends-counted past tx_commit
          (query_duration (codes "commit_transaction") (pos (env.elapsed (past ▷ tx_commit)))))
    | inr e ↦ rw e (Ends-counted past tx_commit error)
  ]

  pub rollback-Ends : (past : Trace) → Ends past (rollback env past).0 0 1
  unfolding rollback
  rollback-Ends past = elim (Bool-cases (env.rollback_ok (past ▷ tx_rollback))) [
    | inl e ↦ rw e (
        Ends-counted past tx_rollback
          (query_duration (codes "rollback_transaction") (pos (env.elapsed (past ▷ tx_rollback)))))
    | inr e ↦ rw e (Ends-counted past tx_rollback error)
  ]

-- The commits and the rollbacks that the end of a function asks for.
unfoldable pub commits_for : FnResult → ℕ
commits_for fn_done = 1
commits_for r = 0

unfoldable pub rollbacks_for : FnResult → ℕ
rollbacks_for fn_done = 0
rollbacks_for r = 1

-- Whether the caller is told that the transaction is committed, or that there was none.
unfoldable pub is_committed : TxResult → Bool
is_committed committed = true
is_committed result = false

module _ (env : Env) where
  finish_tx-Ends :
      (past : Trace) (r : FnResult)
      → Ends past (finish_tx env past r).0 (commits_for r) (rollbacks_for r)
  unfolding finish_tx commits_for rollbacks_for
  finish_tx-Ends past fn_done = commit-Ends env past
  finish_tx-Ends past fn_failed = elim (Bool-cases (rollback env past).1) [
    | inl e ↦ rw e (rollback-Ends env past)
    | inr e ↦ rw e (
        Ends-trans (rollback-Ends env past)
          (Ends-event (rollback env past).0 (log rollback_failed)))
  ]
  finish_tx-Ends past fn_panics =
      Ends-trans (rollback-Ends env past) (Ends-event (rollback env past).0 (log panic_rollback))

  finish_tx-committed :
      (past : Trace) (r : FnResult)
      → is_committed (finish_tx env past r).1
        ≡ (if commits_for r == 1 then (commit env past).1 else false)
  unfolding finish_tx is_committed commits_for
  finish_tx-committed past fn_done = ground arith
  finish_tx-committed past fn_failed = ground arith
  finish_tx-committed past fn_panics = refl

  -- If its function ends no transaction itself, `ExecTx` ends the one it began exactly once: it sends
  -- one commit if the function succeeds, one rollback if the function fails or panics, and neither if
  -- the transaction cannot begin. It reports success exactly when the commit succeeded.
  pub exec_tx-Ends :
      (fn : Trace → Trace × FnResult)
      → ((past : Trace) → Ends past (fn past).0 0 0)
      → (past : Trace)
      → let (begun, ok) = begin env past in
        let (done, r) = fn begun in
        let (after, result) = exec_tx env fn past in
        Ends past after (if ok then commits_for r else 0) (if ok then rollbacks_for r else 0)
        × (is_committed result
            ≡ (if ok then (if commits_for r == 1 then (commit env done).1 else false) else false))
  unfolding exec_tx is_committed
  exec_tx-Ends fn h past = elim (Bool-cases (begin env past).1) [
    | inl e ↦
        let (done, r) = fn (begin env past).0 in
        rw e (
          Ends-after (begin-Ends env past)
              (Ends-after (h (begin env past).0) (finish_tx-Ends done r)),
          finish_tx-committed done r,
        )
    | inr e ↦ rw e (begin-Ends env past, refl)
  ]
