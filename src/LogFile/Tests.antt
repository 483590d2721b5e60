-- ===== src/LogFile/Tests.antt =====
-- Writes over midnight, the second of which finds no place for its file, and the last of which stores one byte.
use xlorm.Common.{
  Bool, ltb, length, none, if◌then◌else◌, some, map, ◌≡◌, refl, List, [], ◌∷◌, true, false,
}
use xlorm.Text.{Text, codes, eq_text, has_byte}
use xlorm.LogFile.{Answers, FileCall, writing, closing, run_calls, new_handler}
use xlorm.Tags.{split, has_prefix}
use xlorm.LogFile.Cleanup.{cleanup_old_logs, has_suffix}
use xlorm.LogFile.Cleanup.Removal.{
  Item, day_log, folder, entry_of, expired, cleanup_old_logs-expired,
}
use xlorm.LogFile.Written.{writes_in, dated_writes}
use xlorm.LogFile.Dated.{new_handler-dated}

abbrev on_day : Text → Answers
on_day date = record { today = date; mkdir_ok = true; open_ok = true; write_fails = none }

abbrev calls : List FileCall
calls =
    writing (on_day (codes "2024-01-01")) (codes "a")
    ∷ writing (record (on_day (codes "2024-01-02")) { open_ok = false }) (codes "b")
    ∷ writing (on_day (codes "2024-01-02")) (codes "c")
    ∷ writing (record (on_day (codes "2024-01-02")) { write_fails = some 1 }) (codes "de")
    ∷ closing (record { sync_ok = true; close_ok = true })
    ∷ []

written :
    writes_in (run_calls calls (new_handler (codes "db") true) []).0
    ≡ (codes "db_2024-01-01.log", codes "a")
      ∷ (codes "db_2024-01-02.log", codes "c")
      ∷ (codes "db_2024-01-02.log", codes "d")
      ∷ []
unfolding run_calls writes_in eq_text codes
written = refl

new_handler-dated_example :
    writes_in (run_calls calls (new_handler (codes "db") true) []).0
    ≡ dated_writes (codes "db") calls (run_calls calls (new_handler (codes "db") true) []).1
new_handler-dated_example = new_handler-dated (codes "db") calls

abbrev long_enough : Text → Bool
long_enough s = ltb 3 (length s)

abbrev items : List Item
items =
    day_log (codes "2024-01-01") 3 ∷ folder (codes "db_old") ∷ day_log (codes "2024-01-09") 11 ∷ []

removed :
    cleanup_old_logs long_enough 7 14
      (new_handler (codes "db") true)
      (some (map (entry_of (codes "db")) items))
    ≡ codes "db_2024-01-01.log" ∷ []
unfolding cleanup_old_logs split has_prefix eq_text codes
removed = refl

cleanup_old_logs-expired_example :
    cleanup_old_logs long_enough 7 14
      (new_handler (codes "db") true)
      (some (map (entry_of (codes "db")) items))
    ≡ (if has_byte (codes "db") b'_' then [] else expired 7 14 (codes "db") items)
unfolding split codes has_byte has_suffix
cleanup_old_logs-expired_example =
    cleanup_old_logs-expired long_enough 7 14 (new_handler (codes "db") true) items refl refl
      ((refl, refl), (tt, ((refl, refl), tt)))
