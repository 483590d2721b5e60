-- ===== src/Handle/Tests.antt =====
-- Calls of a handle whose server takes as long as there are events, and a cache that is a map.
use xlorm.Common.{ℕ, ◌≡◌, refl, [], ◌∷◌, true, none, some, Option, length, pos}
use xlorm.Text.{Text, codes, eq_text}
use xlorm.Value.{Value, int}
use xlorm.Dict.{Dict, insert, lookup, erase}
use xlorm.Effects.{Env, Trace, ◌▷◌, query, exec, prepare, tx_begin}
use xlorm.Table.{Db}
use xlorm.Handle.{
  UserCache, query_db, query_with_context, exec_db, prepare_context, with_cache, refused,
  empty_statement,
}
use xlorm.Handle.Counts.{Counted, calls-Counted}

abbrev server : Env
server = record {
  run_query = λ past statement args. some (record { columns = some []; rows = []; err_nil = true });
  run_query_row = λ past statement args. none;
  run_exec = λ past statement args. none;
  begin_ok = λ past. true;
  commit_ok = λ past. true;
  rollback_ok = λ past. true;
  elapsed = λ past. length past;
  slice_fits = λ n. true;
}

abbrev shop : Db
shop = record { table_pre = codes "s_"; slow_query_threshold = 1 }

abbrev before : Trace
before = tx_begin ∷ []

abbrev statement : Text
statement = codes "SELECT 1"

abbrev nothing_prepared : Trace → Text → Option ℕ
nothing_prepared past sent = none

calls-Counted_example :
    (let (after, a) = query_db server shop statement [] before in
      Counted shop (server.elapsed (before ▷ query statement [])) before after a)
    × (let (after, a) = query_with_context server shop statement [] before in
        Counted shop (server.elapsed (before ▷ query statement [])) before after a)
    × (let (after, a) = exec_db server shop statement [] before in
        Counted shop (server.elapsed (before ▷ exec statement [])) before after a)
    × (let (after, a) = prepare_context server shop nothing_prepared statement before in
        Counted shop (server.elapsed (before ▷ prepare statement)) before after a)
    × (query_db server shop [] [] before ≡ (before, refused empty_statement))
    × (exec_db server shop [] [] before ≡ (before, refused empty_statement))
unfolding codes
calls-Counted_example = calls-Counted server shop nothing_prepared statement [] before refl

abbrev map_cache : UserCache
map_cache = record {
  State = Dict Value;
  get_user = λ k d. (d, lookup k d);
  set_user = λ k v expiration d. (insert k v d, true);
  delete_user = λ k d. (erase k d, true);
}

abbrev key : Text
key = codes "user:1"

abbrev reading : Trace → Trace × Option Value
reading past = (past ▷ query statement [], some (int (pos 7)))

abbrev failing : Trace → Trace × Option Value
failing past = (past ▷ query statement [], none)

-- The second call is answered from the cache.
answered_twice :
    let (s', after, result) = with_cache map_cache key 60 reading [] before in
    (with_cache map_cache key 60 failing s' []).2 ≡ some (int (pos 7))
unfolding with_cache codes lookup insert eq_text
answered_twice = refl
