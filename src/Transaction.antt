-- ===== src/Transaction.antt =====
-- transaction.go, and Begin and ExecTx of xlorm.go, on a handle that is not nil. A trace id is left out.
pub mod Ends
mod Tests
use xlorm.Common.{pos, ℕ, Bool, true, false, if◌then◌else◌}
use xlorm.Text.{codes}
use xlorm.Effects.{
  Env, Trace, ◌▷◌, tx_begin, tx_commit, tx_rollback, metric, query_duration, error, log,
  panic_rollback, rollback_failed,
}

-- What the function of `ExecTx` ends with.
pub data FnResult : Type 0 where
  fn_done : FnResult
  fn_failed : FnResult
  fn_panics : FnResult

-- What `ExecTx` ends with; `tx_panics` is the panic of its function, passed on.
pub data TxResult : Type 0 where
  committed : TxResult
  begin_failed : TxResult
  commit_failed : TxResult
  rolled_back : TxResult
  not_rolled_back : TxResult
  tx_panics : TxResult

module _ (env : Env) where
  -- `DB.Begin`: whether there is a transaction.
  unfoldable pub begin : Trace → Trace × Bool
  begin past =
      let sent = past ▷ tx_begin in
      if env.begin_ok sent
      then (
        sent ▷ metric (query_duration (codes "begin_transaction") (pos (env.elapsed sent))),
        true,
      )
      else (sent ▷ metric error, false)

  -- `Transaction.Commit`: whether the error is nil.
  unfoldable pub commit : Trace → Trace × Bool
  commit past =
      let sent = past ▷ tx_commit in
      if env.commit_ok sent
      then (
        sent ▷ metric (query_duration (codes "commit_transaction") (pos (env.elapsed sent))),
        true,
      )
      else (sent ▷ metric error, false)

  -- `Transaction.Rollback`: whether the error is nil.
  unfoldable pub rollback : Trace → Trace × Bool
  rollback past =
      let sent = past ▷ tx_rollback in
      if env.rollback_ok sent
      then (
        sent ▷ metric (query_duration (codes "rollback_transaction") (pos (env.elapsed sent))),
        true,
      )
      else (sent ▷ metric error, false)

  -- What `ExecTx` does once its function has ended.
  unfoldable pub finish_tx : Trace → FnResult → Trace × TxResult
  finish_tx past fn_done =
      let (after, ok) = commit past in (after, if ok then committed else commit_failed)
  finish_tx past fn_failed =
      let (after, ok) = rollback past in
      if ok then (after, rolled_back) else (after ▷ log rollback_failed, not_rolled_back)
  finish_tx past fn_panics =
      let (after, ok) = rollback past in (after ▷ log panic_rollback, tx_panics)

  -- `ExecTx`, of a function that goes on from the events before it.
  unfoldable pub exec_tx : (Trace → Trace × FnResult) → Trace → Trace × TxResult
  exec_tx fn past =
      let (begun, ok) = begin past in
      let (done, result) = fn begun in
      let finished = finish_tx done result in if ok then finished else (begun, begin_failed)
