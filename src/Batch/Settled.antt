-- ===== src/Batch/Settled.antt =====
-- What the result of a batch stands for, and what the server answered before it.
use xlorm.Common.{ℕ, refl, Bool, true, pos, Bool-cases, inl, inr, ◌==◌}
use xlorm.Text.{Text}
use xlorm.Effects.{
  ExecResult, tx_begin, tx_commit, tx_rollback, query_duration, affected_rows, Env, Trace, ◌▷◌,
  metric,
}
use xlorm.Transaction.{begin, commit, rollback}
use xlorm.Batch.{
  Body, sent_all, stops, panics, BatchResult, stored, stopped, batch_commit_failed, batch_panics,
  undo, settle, in_transaction,
}
use xlorm.Batch.Answered.{
  Answered, BodyAnswered, Answered-failed, Answered-after, Answered-less, quiet_two,
}

-- The commits and rollbacks that a result stands for.
unfoldable pub commits_by : BatchResult → ℕ
commits_by (stored total) = 1
commits_by (batch_commit_failed total) = 1
commits_by result = 0

unfoldable pub rollbacks_by : BatchResult → ℕ
rollbacks_by (stopped total e) = 1
rollbacks_by (batch_commit_failed total) = 1
rollbacks_by batch_panics = 1
rollbacks_by result = 0

-- The events around the batches are no statements.
module _ (env : Env) (well : ExecResult → Bool) where
  begin-Answered : (past : Trace) → Answered env well past (begin env past).0 true
  unfolding begin
  begin-Answered past = elim (Bool-cases (env.begin_ok (past ▷ tx_begin))) [
    | inl e ↦ rw (e) (quiet_two past tx_begin _ (λ d. refl))
    | inr e ↦ rw (e) (quiet_two past tx_begin _ (λ d. refl))
  ]

  commit-Answered : (past : Trace) → Answered env well past (commit env past).0 true
  unfolding commit
  commit-Answered past = elim (Bool-cases (env.commit_ok (past ▷ tx_commit))) [
    | inl e ↦ rw (e) (quiet_two past tx_commit _ (λ d. refl))
    | inr e ↦ rw (e) (quiet_two past tx_commit _ (λ d. refl))
  ]

  rollback-Answered : (past : Trace) → Answered env well past (rollback env past).0 true
  unfolding rollback
  rollback-Answered past = elim (Bool-cases (env.rollback_ok (past ▷ tx_rollback))) [
    | inl e ↦ rw (e) (quiet_two past tx_rollback _ (λ d. refl))
    | inr e ↦ rw (e) (quiet_two past tx_rollback _ (λ d. refl))
  ]

  -- If the result stands for a commit, the body sent all its batches.
  settle-Answered :
      (name : Text) (past done : Trace) (answer : Body)
      → BodyAnswered env well past (done, answer)
      → let (after, result) = settle env name done answer in
        Answered env well past after (commits_by result == 1)
  unfolding settle undo commits_by
  settle-Answered name past done (stops total e) h =
      Answered-failed h (Answered-less (rollback-Answered done))
  settle-Answered name past done panics h =
      Answered-failed h (Answered-less (rollback-Answered done))
  settle-Answered name past done (sent_all total) h =
      let (after, ok) = commit env done in
      elim (Bool-cases ok) [
        | inl e ↦ rw (e) (
            Answered-after h (
              Answered-after (commit-Answered done) (
                quiet_two after (metric (query_duration name (pos (env.elapsed after))))
                  (affected_rows total) (λ d. refl))))
        | inr e ↦
            rw (e)
              (Answered-after h (Answered-after (commit-Answered done) (rollback-Answered after)))
      ]

  pub in_transaction-Answered :
      (name : Text) (body : Trace → Trace × Body)
      → ((past : Trace) → BodyAnswered env well past (body past))
      → (past : Trace)
      → let (after, result) = in_transaction env name body past in
        Answered env well past after (commits_by result == 1)
  unfolding in_transaction commits_by
  in_transaction-Answered name body h past = elim (Bool-cases (begin env past).1) [
    | inl e ↦
        let (begun, ok) = begin env past in
        let (done, answer) = body begun in
        rw (e)
          (Answered-after (begin-Answered past) (settle-Answered name begun done answer (h begun)))
    | inr e ↦ rw (e) (Answered-less (begin-Answered past))
  ]
