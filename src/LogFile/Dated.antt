-- ===== src/LogFile/Dated.antt =====
-- Which file a log entry goes to.
use xlorm.Common.{
  ℕ, ◌≡◌, ◌≢◌, refl, sym, ap, ◌∙◌, List, [], ◌∷◌, ◌++◌, Bool, true, false, ◌&&◌, none, some, ◌⊎◌,
  inl, inr, append-nil, Bool-cases, Option-cases, subst,
}
use xlorm.Text.{Text, eq_text}
use xlorm.Text.Laws.{eq_text→eq}
use xlorm.LogFile.{
  Answers, FileEvent, opened, closed, FileHandler, dated_name, is_open, close_old, open_dated,
  open_new_file_if_needed, write_current, write, close_file, FileCall, writing, closing, run_calls,
  new_handler, store, CloseAnswers,
}
use xlorm.LogFile.Written.{
  put, writes_in, portion, dated_writes, writes_in-append, closed_writes, one_more, stored_writes,
  nothing_written,
}

-- The current file, if there is one, is that of the current date.
record IsDated (base : Text) (h : FileHandler) : Type 0 where
  same_base : h.base_file_name ≡ base
  rotates : h.rotation_enabled ≡ true
  named : (h.current_file ≡ none) ⊎ (h.current_file ≡ some (dated_name base h.current_date))

false-ne-true : false ≢ true
false-ne-true e = cc

module _ (base : Text) where
  -- What opening leaves: the date is today's, if there was no error.
  record Opens (a : Answers) (past : List FileEvent) (result : FileHandler × List FileEvent × Bool)
      : Type 0 where
    dated : IsDated base result.0
    unwritten : writes_in result.1 ≡ writes_in past
    current : result.2 ≡ true → result.0.current_date ≡ a.today

  open_dated-Opens :
      (a : Answers) (h : FileHandler) (past : List FileEvent)
      → IsDated base h
      → Opens a past (open_dated a h past)
  unfolding open_dated writes_in
  open_dated-Opens a h past d = elim (Bool-cases (eq_text a.today h.current_date)) [
    | inl e ↦
        rw (open_dated, e)
          (record {
            dated = d;
            unwritten = refl;
            current = λ ok. sym (eq_text→eq a.today h.current_date e);
          })
    | inr e ↦ elim (Bool-cases (a.mkdir_ok && a.open_ok)) [
      | inl o ↦
          rw (open_dated, e, o)
            (record {
              dated = record {
                same_base = d.same_base;
                rotates = d.rotates;
                named = inr (ap (λ b. some (dated_name b a.today)) d.same_base);
              };
              unwritten =
                  writes_in-append (close_old h past)
                    (opened (dated_name h.base_file_name a.today) ∷ [])
                  ∙ append-nil (writes_in (close_old h past))
                  ∙ closed_writes h past;
              current = λ ok. refl;
            })
      | inr o ↦
          rw (open_dated, e, o)
            (record {
              dated = d;
              unwritten = closed_writes h past;
              current = λ ok. absurd (false-ne-true ok);
            })
    ]
  ]

  dates :
      (a : Answers) (h : FileHandler) (past : List FileEvent)
      → h.rotation_enabled ≡ true
      → open_new_file_if_needed a h past ≡ open_dated a h past
  unfolding open_new_file_if_needed
  dates a h past e = rw e refl

  -- What a write leaves.
  record Writes (a : Answers) (bytes : Text) (past : List FileEvent)
      (result : FileHandler × List FileEvent × ℕ × Bool) : Type 0 where
    dated : IsDated base result.0
    written :
        writes_in result.1
        ≡ writes_in past ++ put (dated_name base a.today) (portion (result.2, result.3) bytes) []

  write_current-Writes :
      (a : Answers) (bytes : Text) (past : List FileEvent) (h : FileHandler)
      (opened_past : List FileEvent) (ok : Bool)
      → Opens a past (h, opened_past, ok)
      → Writes a bytes past (write_current a bytes (h, opened_past, ok))
  unfolding write_current
  write_current-Writes a bytes past h es false o = record {
    dated = o.dated;
    written = o.unwritten ∙ sym (nothing_written _ (writes_in past) bytes);
  }
  write_current-Writes a bytes past h es true o = elim o.dated.named [
    | inl e ↦
        rw (write_current, e)
          (record {
            dated = o.dated;
            written = o.unwritten ∙ sym (nothing_written _ (writes_in past) bytes);
          })
    | inr e ↦ elim (Bool-cases (is_open (dated_name base h.current_date) es)) [
      | inl w ↦
          let (_, n, ok) = store a.write_fails (dated_name base h.current_date) bytes es in
          rw (write_current, e, w)
            (record {
              dated = o.dated;
              written =
                  stored_writes a.write_fails (dated_name base h.current_date) bytes es
                  ∙ ap (λ ws. ws ++ put (dated_name base h.current_date) (portion (n, ok) bytes) [])
                      o.unwritten
                  ∙ ap
                      (λ date.
                        writes_in past ++ put (dated_name base date) (portion (n, ok) bytes) [])
                      (o.current refl);
            })
      | inr w ↦
          rw (write_current, e, w)
            (record {
              dated = o.dated;
              written = o.unwritten ∙ sym (nothing_written _ (writes_in past) bytes);
            })
    ]
  ]

  write-Writes :
      (a : Answers) (bytes : Text) (h : FileHandler) (past : List FileEvent)
      → IsDated base h
      → Writes a bytes past (write a bytes h past)
  unfolding write
  write-Writes a bytes h past d =
      write_current-Writes a bytes past _ _ _
        (subst (Opens a past) (sym (dates a h past d.rotates)) (open_dated-Opens a h past d))

  close-IsDated :
      (a : CloseAnswers) (h : FileHandler) (past : List FileEvent)
      → IsDated base h
      → IsDated base (close_file a h past).0 × (writes_in (close_file a h past).1 ≡ writes_in past)
  unfolding close_file writes_in
  close-IsDated a h past d = elim (Option-cases h.current_file) [
    | inl e ↦ simp (close_file, e) (d, refl)
    | inr (f, e) ↦
        let closes = writes_in-append past (closed f ∷ []) ∙ append-nil (writes_in past) in
        elim (Bool-cases (a.sync_ok && is_open f past)) [
          | inr s ↦ simp (close_file, e, s) (d, refl)
          | inl s ↦ elim (Bool-cases a.close_ok) [
            | inr c ↦ simp (close_file, e, s, c) (d, closes)
            | inl c ↦
                simp (close_file, e, s, c)
                  (
                    record { same_base = d.same_base; rotates = d.rotates; named = inl refl },
                    closes,
                  )
          ]
        ]
  ]

  run_calls-dated :
      (calls : List FileCall) (h : FileHandler) (past : List FileEvent)
      → IsDated base h
      → let (after, returns) = run_calls calls h past in
        writes_in after ≡ writes_in past ++ dated_writes base calls returns
  unfolding run_calls dated_writes
  run_calls-dated [] h past d = sym (append-nil (writes_in past))
  run_calls-dated (writing a bytes ∷ calls) h past d =
      let w = write-Writes a bytes h past d in
      let (h', past', n, ok) = write a bytes h past in
      let rest = dated_writes base calls (run_calls calls h' past').1 in
      run_calls-dated calls h' past' w.dated
      ∙ ap (λ ws. ws ++ rest) w.written
      ∙ one_more (dated_name base a.today) (portion (n, ok) bytes) (writes_in past) rest
  run_calls-dated (closing a ∷ calls) h past d =
      let (d', same) = close-IsDated a h past d in
      let (h', past', ok) = close_file a h past in
      run_calls-dated calls h' past' d'
      ∙ ap (λ ws. ws ++ dated_writes base calls (run_calls calls h' past').1) same

  -- With rotation, whatever the system answers, and whatever dates it gives, on a new handler: the bytes in the
  -- files are those of the writes, in their order, each once and in the file named by the date of its own
  -- write: all of them if the write returned no error, and else the first ones, as many as it
  -- returned. So it is also where the handler is closed in between, and where its closing fails.
  pub new_handler-dated :
      (calls : List FileCall)
      → let (after, returns) = run_calls calls (new_handler base true) [] in
        writes_in after ≡ dated_writes base calls returns
  unfolding writes_in
  new_handler-dated calls =
      run_calls-dated calls (new_handler base true) []
        (record { same_base = refl; rotates = refl; named = inl refl })
