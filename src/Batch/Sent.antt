-- ===== src/Batch/Sent.antt =====
-- The loops over the batches, with the answers to their statements.
use xlorm.Common.{
  ℕ, zero, suc, ◌+◌, ◌≡◌, refl, ap, List, [], ◌++◌, Bool, true, false, is_empty, length, take, drop,
  Option, none, some, ℤ, pos, ◌+ℤ◌, wrap64, if◌then◌else◌, not, ◌==◌,
}
use xlorm.Text.{Text}
use xlorm.Runes.{Unicode}
use xlorm.Value.{Value}
use xlorm.Row.{Row}
use xlorm.Table.Change.{rows_or_zero}
use xlorm.Effects.{Env, ExecResult, Trace, ◌▷◌, tx_exec, metric, error, log, batch_failed}
use xlorm.Batch.{
  BatchError, in_size, Body, panics, batch_size, insert_batches, insert_body, extract_batch_fields,
  batch_args, batch_text, first_length,
}
use xlorm.Batch.Update.{
  Checked, good, bad, update_statement, update_batch, update_batches, affected_of,
}
use xlorm.Batch.Answered.{
  answers, Answered, is_good, BodyAnswered, false-ne-true, well_answer, Answered-refl,
  Answered-after, Answered-failed, Answered-event,
}

-- What holds of the branches holds of the choice.
if-Holds {ℓ κ} :
    {B : Type ℓ} (P : B → Type κ) (b : Bool) (x y : B) → P x → P y → P (if b then x else y)
if-Holds P true x y h i = h
if-Holds P false x y h i = i

answer-Holds {ℓ κ μ} :
    {A : Type ℓ} {B : Type κ} (P : B → Type μ) (o : Option A) (x : B) (f : A → B)
    → P x
    → ((a : A) → o ≡ some a → P (f a))
    → P (elim o as (λ o. B) [ none ↦ x | some a ↦ f a ])
answer-Holds P none x f h i = h
answer-Holds P (some a) x f h i = i a refl

checked-Holds {ℓ κ μ} :
    {A : Type ℓ} {B : Type κ} (P : B → Type μ) (o : Checked A) (f : BatchError → B) (g : A → B)
    → ((e : BatchError) → o ≡ bad e → P (f e))
    → ((a : A) → o ≡ good a → P (g a))
    → P (elim o as (λ o. B) [ bad e ↦ f e | good a ↦ g a ])
checked-Holds P (bad e) f g h i = h e refl
checked-Holds P (good a) f g h i = i a refl

pub in_size-Answered :
    (env : Env) (well : ExecResult → Bool) (size : ℤ) (body : ℕ → Trace → Trace × Body)
    → ((n : ℕ) (past : Trace) → BodyAnswered env well past (body n past))
    → (past : Trace) → BodyAnswered env well past (in_size size body past)
unfolding in_size
in_size-Answered env well size body h past =
    answer-Holds (BodyAnswered env well past) (batch_size size) (past, panics) (λ n. body n past)
      (Answered-refl past false) (λ n e. h n past)

abbrev pub any_result : ExecResult → Bool
any_result r = true

-- The number of its rows is known.
abbrev pub rows_known : ExecResult → Bool
rows_known r = elim r.rows_affected [ none ↦ false | some n ↦ true ]

module _ (env : Env) (table_name : Text) where
  insert_batches-Answered :
      (fuel size : ℕ) (fields : List Text) (items : List Row) (i : ℕ) (args : List Value)
      (total : ℤ) (past : Trace)
      → BodyAnswered env any_result past
          (insert_batches env table_name fuel size fields items i args total past)
  unfolding insert_batches
  insert_batches-Answered zero size fields items i args total past = Answered-refl past true
  insert_batches-Answered (suc fuel) size fields items i args total past =
      let batch = take size items in
      let args' = args ++ batch_args fields batch in
      let text = batch_text table_name fields (length batch) in
      let sent = past ▷ tx_exec text args' in
      let failed = log (batch_failed i (i + length batch)) in
      let P = BodyAnswered env any_result past in
      if-Holds P (is_empty items) _ _ (Answered-refl past true) (
        if-Holds P (not (first_length batch == length fields)) _ _ (Answered-refl past false) (
          answer-Holds P (env.run_exec sent text args') _ _
            (Answered-failed
              (Answered-event past (tx_exec text args') false (λ d. absurd (false-ne-true d)))
              (Answered-failed (Answered-event sent failed true (λ d. refl))
                (Answered-event (sent ▷ failed) (metric error) false (λ d. refl))))
            (λ result e.
              Answered-after
                (Answered-event past (tx_exec text args') true
                  (λ d. well_answer env any_result past text args' result e refl))
                (insert_batches-Answered fuel size fields (drop size items) (i + size) args'
                  (wrap64 (total +ℤ rows_or_zero result.rows_affected)) sent))))

  pub insert_body-Answered :
      (u : Unicode) (items : List Row) (size : ℕ) (past : Trace)
      → BodyAnswered env any_result past (insert_body env table_name u items size past)
  unfolding insert_body
  insert_body-Answered u items size past =
      let (check, fields) = extract_batch_fields u (take size items) in
      let P = BodyAnswered env any_result past in
      answer-Holds P check _ _
        (if-Holds P (is_empty fields) _ _ (Answered-refl past false)
          (insert_batches-Answered (length items) size fields items 0 [] (pos 0) past))
        (λ e h. Answered-refl past false)

module _ (env : Env) (table_name key_field : Text) where
  good_rows :
      (past : Trace) (text : Text) (args : List Value) (o : Option ExecResult)
      → env.run_exec (past ▷ tx_exec text args) text args ≡ o
      → is_good (affected_of o) ≡ true
      → answers env rows_known (past ▷ tx_exec text args) (tx_exec text args) ≡ true
  good_rows past text args none e g = absurd (false-ne-true g)
  good_rows past text args (some r) e g =
      well_answer env rows_known past text args r e (rows_good r.rows_affected g)
    where
      rows_good :
          (rows : Option ℤ)
          → is_good (elim rows as (λ o. Checked ℤ) [
            | none ↦ bad BatchError.rows_failed
            | some n ↦ good n
          ])
            ≡ true
          → (elim rows as (λ o. Bool) [ none ↦ false | some n ↦ true ]) ≡ true
      rows_good none g = g
      rows_good (some n) g = refl

  -- A batch of an update, whose error is not lost.
  abbrev BatchAnswered : Trace → Trace × Checked ℤ → Type 0
  BatchAnswered past (after, answer) = Answered env rows_known past after (is_good answer)

  update_batch-Answered :
      (items : List Row) (past : Trace)
      → BatchAnswered past (update_batch env table_name key_field items past)
  unfolding update_batch
  update_batch-Answered items past =
      let P = BatchAnswered past in
      if-Holds P (is_empty items) _ _ (Answered-refl past true) (
        checked-Holds P (update_statement table_name key_field items) _ _
          (λ e h. Answered-refl past false)
          (λ statement h.
            Answered-event past (tx_exec statement.0 statement.1) _
              (good_rows past statement.0 statement.1 _ refl)))

  pub update_batches-Answered :
      (fuel size : ℕ) (items : List Row) (total : ℤ) (past : Trace)
      → BodyAnswered env rows_known past
          (update_batches env table_name key_field fuel size items total past)
  unfolding update_batches
  update_batches-Answered zero size items total past = Answered-refl past true
  update_batches-Answered (suc fuel) size items total past =
      let (after, answer) = update_batch env table_name key_field (take size items) past in
      let first = update_batch-Answered (take size items) past in
      let P = BodyAnswered env rows_known past in
      if-Holds P (is_empty items) _ _ (Answered-refl past true) (
        checked-Holds P answer _ _ (λ e h. Answered-failed first (Answered-refl after false))
          (λ affected h. Answered-after (known_good h first) (
            update_batches-Answered fuel size (drop size items) (wrap64 (total +ℤ affected))
              after)))
    where
      known_good :
          {a b : Trace} {answer : Checked ℤ} {n : ℤ}
          → answer ≡ good n
          → Answered env rows_known a b (is_good answer)
          → Answered env rows_known a b true
      known_good e h = record {
        later = h.later;
        extends = h.extends;
        all_answered = λ d. h.all_answered (ap is_good e);
      }
