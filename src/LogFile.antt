-- ===== src/LogFile.antt =====
-- logger.go: `rotatingFileHandler`, which opens a file for each day. What the system answers to a call, and the
-- date that it gives, are the parameter `Answers`; a file is named within the directory of the logs.
pub mod Written
pub mod Dated
pub mod Cleanup
mod Tests
use xlorm.Common.{
  ℕ, length, take, List, [], ◌∷◌, ◌++◌, Bool, true, false, ◌&&◌, if◌then◌else◌, Option, none, some,
}
use xlorm.Text.{Text, codes, eq_text}

-- A write fails behind some number of bytes, or not (`none`).
pub record Answers : Type 0 where
  pub today : Text
  pub mkdir_ok : Bool
  pub open_ok : Bool
  pub write_fails : Option ℕ

-- What the system answers to `Close`.
pub record CloseAnswers : Type 0 where
  pub sync_ok : Bool
  pub close_ok : Bool

pub data FileEvent : Type 0 where
  opened : Text → FileEvent
  closed : Text → FileEvent
  wrote : Text → Text → FileEvent

-- `rotatingFileHandler`, with the name of its current file, which may have been closed.
pub record FileHandler : Type 0 where
  pub base_file_name : Text
  pub current_date : Text
  pub current_file : Option Text
  pub rotation_enabled : Bool

-- The name of the file of a day.
abbrev pub dated_name : Text → Text → Text
dated_name base date = base ++ (codes "_" ++ (date ++ codes ".log"))

-- A file is open that was opened and not closed since; the events before are read with what came before them.
unfoldable pub open_after : Bool → Text → List FileEvent → Bool
open_after was_open f [] = was_open
open_after was_open f (opened g ∷ es) = open_after (if eq_text g f then true else was_open) f es
open_after was_open f (closed g ∷ es) = open_after (if eq_text g f then false else was_open) f es
open_after was_open f (wrote g bytes ∷ es) = open_after was_open f es

unfoldable pub is_open : Text → List FileEvent → Bool
unfolding open_after
is_open f past = open_after false f past

-- The file of the old day is closed.
unfoldable pub close_old : FileHandler → List FileEvent → List FileEvent
close_old h past = elim h.current_file [ none ↦ past | some f ↦ past ++ closed f ∷ [] ]

-- `openNewFileIfNeeded`, with a file for each day: the handler, the events, and whether the error is nil.
unfoldable pub open_dated :
    Answers → FileHandler → List FileEvent → FileHandler × List FileEvent × Bool
unfolding close_old
open_dated a h past =
    if eq_text a.today h.current_date
    then (h, past, true)
    else if a.mkdir_ok && a.open_ok
    then (
      record h {
        current_file = some (dated_name h.base_file_name a.today);
        current_date = a.today;
      },
      close_old h past ++ opened (dated_name h.base_file_name a.today) ∷ [],
      true,
    )
    else (h, close_old h past, false)

-- The same with one file.
unfoldable pub open_plain :
    Answers → FileHandler → List FileEvent → FileHandler × List FileEvent × Bool
open_plain a h past = elim h.current_file [
  | some f ↦ (h, past, true)
  | none ↦
      let name = h.base_file_name ++ codes ".log" in
      if a.mkdir_ok && a.open_ok
      then (
        record h { current_file = some name; current_date = [] },
        past ++ opened name ∷ [],
        true,
      )
      else (h, past, false)
]

-- `openNewFileIfNeeded`
unfoldable pub open_new_file_if_needed :
    Answers → FileHandler → List FileEvent → FileHandler × List FileEvent × Bool
unfolding open_dated open_plain
open_new_file_if_needed a h past =
    if h.rotation_enabled then open_dated a h past else open_plain a h past

-- What `File.Write` does with an open file: the events, the number of bytes, and whether the error is nil.
unfoldable pub store : Option ℕ → Text → Text → List FileEvent → List FileEvent × ℕ × Bool
store none f bytes past = (past ++ wrote f bytes ∷ [], length bytes, true)
store (some n) f bytes past = (past ++ wrote f (take n bytes) ∷ [], length (take n bytes), false)

-- What `Write` does behind that: a file that is nil or closed refuses.
unfoldable pub write_current :
    Answers → Text → FileHandler × List FileEvent × Bool → FileHandler × List FileEvent × ℕ × Bool
unfolding is_open store
write_current a bytes (h, past, false) = (h, past, 0, false)
write_current a bytes (h, past, true) = elim h.current_file [
  | none ↦ (h, past, 0, false)
  | some f ↦
      let (after, n, ok) = store a.write_fails f bytes past in
      if is_open f past then (h, after, n, ok) else (h, past, 0, false)
]

-- `Write`
unfoldable pub write :
    Answers → Text → FileHandler → List FileEvent → FileHandler × List FileEvent × ℕ × Bool
unfolding open_new_file_if_needed write_current
write a bytes h past = write_current a bytes (open_new_file_if_needed a h past)

-- `Close`: a closed file cannot be synchronised, and a closing that fails leaves the file closed, but current.
unfoldable pub close_file :
    CloseAnswers → FileHandler → List FileEvent → FileHandler × List FileEvent × Bool
unfolding is_open
close_file a h past = elim h.current_file [
  | none ↦ (h, past, true)
  | some f ↦
      if a.sync_ok && is_open f past
      then (if a.close_ok
          then (record h { current_file = none; current_date = [] }, past ++ closed f ∷ [], true)
          else (h, past ++ closed f ∷ [], false))
      else (h, past, false)
]

-- A call of the handler.
pub data FileCall : Type 0 where
  writing : Answers → Text → FileCall
  closing : CloseAnswers → FileCall

-- The calls one after the other: the events, and what each call returned (a `Close` no bytes).
unfoldable pub run_calls :
    List FileCall → FileHandler → List FileEvent → List FileEvent × List (ℕ × Bool)
unfolding write close_file
run_calls [] h past = (past, [])
run_calls (writing a bytes ∷ calls) h past =
    let (h', past', n, ok) = write a bytes h past in
    let (after, returns) = run_calls calls h' past' in (after, (n, ok) ∷ returns)
run_calls (closing a ∷ calls) h past =
    let (h', past', ok) = close_file a h past in
    let (after, returns) = run_calls calls h' past' in (after, (0, ok) ∷ returns)

-- `NewRotatingFileHandler` before it opens a file.
abbrev pub new_handler : Text → Bool → FileHandler
new_handler base rotation = record {
  base_file_name = base;
  current_date = [];
  current_file = none;
  rotation_enabled = rotation;
}
