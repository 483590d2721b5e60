-- ===== src/Transaction/Tests.antt =====
-- A transaction on a server whose commits fail.
use xlorm.Common.{◌≡◌, [], true, false, none, if◌then◌else◌, ◌==◌}
use xlorm.Effects.{Env, Trace}
use xlorm.Transaction.{FnResult, fn_failed, begin, commit, exec_tx}
use xlorm.Transaction.Ends.{Ends, Ends-refl, commits_for, rollbacks_for, is_committed, exec_tx-Ends}

abbrev server : Env
server = record {
  run_query = λ past text args. none;
  run_query_row = λ past text args. none;
  run_exec = λ past text args. none;
  begin_ok = λ past. true;
  commit_ok = λ past. false;
  rollback_ok = λ past. true;
  elapsed = λ past. 1;
  slice_fits = λ n. true;
}

abbrev failing : Trace → Trace × FnResult
failing past = (past, fn_failed)

exec_tx-Ends_example :
    let (begun, ok) = begin server [] in
    let (done, r) = failing begun in
    let (after, result) = exec_tx server failing [] in
    Ends [] after (if ok then commits_for r else 0) (if ok then rollbacks_for r else 0)
    × (is_committed result
        ≡ (if ok then (if commits_for r == 1 then (commit server done).1 else false) else false))
exec_tx-Ends_example = exec_tx-Ends server failing Ends-refl []
