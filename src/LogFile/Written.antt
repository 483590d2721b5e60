-- ===== src/LogFile/Written.antt =====
-- What is written to the log files.
use xlorm.Common.{
  ℕ, zero, suc, Option, is_empty, length, take, ◌≡◌, refl, sym, ap, ◌∙◌, List, [], ◌∷◌, ◌++◌, Bool,
  false, if◌then◌else◌, none, some, inl, inr, append_assoc, append-nil, Bool-cases, Option-cases,
}
use xlorm.Text.{Text}
use xlorm.LogFile.{
  FileEvent, opened, closed, wrote, FileHandler, dated_name, close_old, FileCall, writing, closing,
  store,
}

-- A write that stores no byte leaves no trace.
unfoldable pub put : Text → Text → List (Text × Text) → List (Text × Text)
put f bytes ws = if is_empty bytes then ws else (f, bytes) ∷ ws

-- What was written, and to which file.
unfoldable pub writes_in : List FileEvent → List (Text × Text)
unfolding put
writes_in [] = []
writes_in (opened f ∷ es) = writes_in es
writes_in (closed f ∷ es) = writes_in es
writes_in (wrote f bytes ∷ es) = put f bytes (writes_in es)

-- All bytes of the calls that returned no error, and of the others as many as they returned, each in the file of
-- its own day.
abbrev pub portion : ℕ × Bool → Text → Text
portion (n, ok) bytes = if ok then bytes else take n bytes

unfoldable pub dated_writes : Text → List FileCall → List (ℕ × Bool) → List (Text × Text)
unfolding put
dated_writes base [] returns = []
dated_writes base (writing a bytes ∷ calls) [] = []
dated_writes base (writing a bytes ∷ calls) (r ∷ returns) =
    put (dated_name base a.today) (portion r bytes) (dated_writes base calls returns)
dated_writes base (closing a ∷ calls) [] = []
dated_writes base (closing a ∷ calls) (r ∷ returns) = dated_writes base calls returns

put-append :
    (f bytes : Text) (ws vs : List (Text × Text)) → put f bytes (ws ++ vs) ≡ put f bytes ws ++ vs
unfolding put
put-append f bytes ws vs = elim (Bool-cases (is_empty bytes)) [
  | inl e ↦ rw (e) refl
  | inr e ↦ rw (e) refl
]

take_again : (n : ℕ) (s : Text) → take (length (take n s)) s ≡ take n s
take_again zero s = refl
take_again (suc n) [] = refl
take_again (suc n) (c ∷ s) = ap (λ t. c ∷ t) (take_again n s)

pub writes_in-append :
    (xs ys : List FileEvent) → writes_in (xs ++ ys) ≡ writes_in xs ++ writes_in ys
unfolding writes_in
writes_in-append [] ys = refl
writes_in-append (opened f ∷ xs) ys = writes_in-append xs ys
writes_in-append (closed f ∷ xs) ys = writes_in-append xs ys
writes_in-append (wrote f bytes ∷ xs) ys =
    ap (put f bytes) (writes_in-append xs ys) ∙ put-append f bytes (writes_in xs) (writes_in ys)

pub closed_writes :
    (h : FileHandler) (past : List FileEvent) → writes_in (close_old h past) ≡ writes_in past
unfolding close_old writes_in
closed_writes h past = elim (Option-cases h.current_file) [
  | inl e ↦ rw (close_old, e) refl
  | inr (f, e) ↦
      rw (close_old, e) (writes_in-append past (closed f ∷ []) ∙ append-nil (writes_in past))
]

pub one_more :
    (f bytes : Text) (ws rest : List (Text × Text))
    → (ws ++ put f bytes []) ++ rest ≡ ws ++ put f bytes rest
one_more f bytes ws rest =
    append_assoc ws (put f bytes []) rest ∙ ap (λ v. ws ++ v) (sym (put-append f bytes [] rest))

-- What is stored is what the call returns.
pub stored_writes :
    (fails : Option ℕ) (f bytes : Text) (past : List FileEvent)
    → let (after, n, ok) = store fails f bytes past in
      writes_in after ≡ writes_in past ++ put f (portion (n, ok) bytes) []
unfolding store writes_in
stored_writes none f bytes past = writes_in-append past (wrote f bytes ∷ [])
stored_writes (some n) f bytes past =
    writes_in-append past (wrote f (take n bytes) ∷ [])
    ∙ ap (λ s. writes_in past ++ put f s []) (sym (take_again n bytes))

pub nothing_written :
    (f : Text) (ws : List (Text × Text)) (bytes : Text)
    → ws ++ put f (portion (0, false) bytes) [] ≡ ws
unfolding put
nothing_written f ws [] = append-nil ws
nothing_written f ws (c ∷ s) = append-nil ws
