-- ===== src/Batch/Rounds.antt =====
-- The loops over the batches end: a round for each record is enough.
use xlorm.Common.{
  ℕ, zero, suc, ◌+◌, ◌-◌, ◌≤◌, ◌≡◌, ◌∙◌, refl, List, [], ◌∷◌, ◌++◌, Bool, true, false, not, ◌==◌,
  is_empty, length, take, drop, Option, none, some, ℤ, ◌+ℤ◌, wrap64, arith, if◌then◌else◌,
}
use xlorm.Text.{Text}
use xlorm.Value.{Value}
use xlorm.Row.{Row}
use xlorm.Table.Change.{rows_or_zero}
use xlorm.Effects.{Env, Trace, ◌▷◌, tx_exec}
use xlorm.Batch.{BatchError, insert_batches, batch_args, batch_text, first_length}
use xlorm.Batch.Update.{Checked, good, bad, update_batch, update_batches}

length-drop : (n : ℕ) (items : List Row) → length (drop n items) ≡ length items - n
length-drop zero items = omega arith
length-drop (suc n) [] = omega arith
length-drop (suc n) (x ∷ items) = omega (arith, length-drop n items)

-- One more round changes neither branch of a test, nor an answer.
if-same {ℓ} :
    {A : Type ℓ} (b : Bool) (x y y' : A) → y ≡ y' → (if b then x else y) ≡ (if b then x else y')
if-same true x y y' e = refl
if-same false x y y' e = e

answer-same {ℓ κ} :
    {A : Type ℓ} {B : Type κ} (o : Option A) (x : B) (f g : A → B)
    → ((a : A) → f a ≡ g a)
    → elim o as (λ o. B) [ none ↦ x | some a ↦ f a ]
      ≡ elim o as (λ o. B) [ none ↦ x | some a ↦ g a ]
answer-same none x f g h = refl
answer-same (some a) x f g h = h a

checked-same {ℓ κ} :
    {A : Type ℓ} {B : Type κ} (o : Checked A) (k : BatchError → B) (f g : A → B)
    → ((a : A) → f a ≡ g a)
    → elim o as (λ o. B) [ bad e ↦ k e | good a ↦ f a ]
      ≡ elim o as (λ o. B) [ bad e ↦ k e | good a ↦ g a ]
checked-same (bad e) k f g h = refl
checked-same (good a) k f g h = h a

no_more : (n : ℕ) → 0 + n ≡ n
no_more n = omega arith

one_more : (k n : ℕ) → suc k + n ≡ suc (k + n)
one_more k n = omega arith

module _ (env : Env) (table_name : Text) (size : ℕ) where
  insert_batches-suc :
      (fuel : ℕ) (fields : List Text) (items : List Row) (i : ℕ) (args : List Value) (total : ℤ)
      (past : Trace)
      → length items ≤ fuel
      → insert_batches env table_name (suc fuel) (suc size) fields items i args total past
        ≡ insert_batches env table_name fuel (suc size) fields items i args total past
  unfolding insert_batches
  insert_batches-suc zero fields [] i args total past h = refl
  insert_batches-suc zero fields (x ∷ items) i args total past h = absurd (omega (arith, h))
  insert_batches-suc (suc fuel) fields items i args total past h =
      let batch = take (suc size) items in
      let args' = args ++ batch_args fields batch in
      let text = batch_text table_name fields (length batch) in
      let sent = past ▷ tx_exec text args' in
      if-same (is_empty items) _ _ _ (
        if-same (not (first_length batch == length fields)) _ _ _ (
          answer-same (env.run_exec sent text args') _ _ _ (λ result.
            insert_batches-suc fuel fields (drop (suc size) items) (i + suc size) args'
              (wrap64 (total +ℤ rows_or_zero result.rows_affected)) sent
              (omega (arith, length-drop (suc size) items)))))

  update_batches-suc :
      (key_field : Text) (fuel : ℕ) (items : List Row) (total : ℤ) (past : Trace)
      → length items ≤ fuel
      → update_batches env table_name key_field (suc fuel) (suc size) items total past
        ≡ update_batches env table_name key_field fuel (suc size) items total past
  unfolding update_batches
  update_batches-suc key_field zero [] total past h = refl
  update_batches-suc key_field zero (x ∷ items) total past h = absurd (omega (arith, h))
  update_batches-suc key_field (suc fuel) items total past h =
      let sent = update_batch env table_name key_field (take (suc size) items) past in
      if-same (is_empty items) _ _ _ (
        checked-same sent.1 _ _ _ (λ affected.
          update_batches-suc key_field fuel (drop (suc size) items) (wrap64 (total +ℤ affected))
            sent.0 (omega (arith, length-drop (suc size) items))))

  -- With a round for each record, the loops of an insert and of an update over batches of at least one
  -- record have ended by themselves: any number of further rounds gives the same events and answer.
  pub batches-end :
      (key_field : Text) (fields : List Text) (items : List Row) (args : List Value) (total : ℤ)
      (past : Trace) (k : ℕ)
      → (insert_batches env table_name (k + length items) (suc size) fields items 0 args total past
          ≡ insert_batches env table_name (length items) (suc size) fields items 0 args total past)
        × (update_batches env table_name key_field (k + length items) (suc size) items total past
            ≡ update_batches env table_name key_field (length items) (suc size) items total past)
  batches-end key_field fields items args total past zero = rw (no_more (length items)) (refl, refl)
  batches-end key_field fields items args total past (suc k) =
      let (a, b) = batches-end key_field fields items args total past k in
      rw (one_more k (length items)) (
        insert_batches-suc (k + length items) fields items 0 args total past (omega arith) ∙ a,
        update_batches-suc key_field (k + length items) items total past (omega arith) ∙ b,
      )
