-- ===== src/Batch/Repeats.antt =====
-- What the second batch of an insert is sent with.
use xlorm.Common.{
  ℕ, zero, suc, ◌+◌, ◌*◌, ◌<◌, ◌≡◌, ◌∙◌, refl, ap, sym, List, [], ◌∷◌, ◌++◌, Bool, true, false, not,
  ◌==◌, is_empty, length, length-append, take, drop, Option, none, some, ℤ, ◌+ℤ◌, wrap64, arith,
  append-nil, append_assoc, if◌then◌else◌,
}
use xlorm.Text.{Text, codes, count}
use xlorm.Text.Laws.{counts, count-concat, count-join}
use xlorm.Value.{Value}
use xlorm.Row.{Row}
use xlorm.Placeholders.{placeholder_text}
use xlorm.Table.Change.{rows_or_zero}
use xlorm.Table.Marks.{count-placeholder_text}
use xlorm.Effects.{Env, ExecResult, Trace, ◌▷◌, tx_exec, metric, error, log, batch_failed}
use xlorm.Batch.{Body, insert_batches, batch_args, item_args, batch_text, first_length}

-- The events so far are not taken back.
record Grows (past after : Trace) : Type 0 where
  more : Trace
  is_more : after ≡ past ++ more

Grows-refl : (past : Trace) → Grows past past
Grows-refl past = record { more = []; is_more = sym (append-nil past) }

Grows-after : {a : Trace} (es : Trace) {c : Trace} → Grows (a ++ es) c → Grows a c
Grows-after {a = a} es h = record {
  more = es ++ h.more;
  is_more = h.is_more ∙ append_assoc a es h.more;
}

if-Grows :
    (past : Trace) (b : Bool) (x y : Trace × Body)
    → Grows past x.0
    → Grows past y.0
    → Grows past (if b then x else y).0
if-Grows past true x y h i = h
if-Grows past false x y h i = i

answer-Grows :
    (past : Trace) (o : Option ExecResult) (x : Trace × Body) (f : ExecResult → Trace × Body)
    → Grows past x.0
    → ((r : ExecResult) → Grows past (f r).0)
    → Grows past (elim o as (λ o. Trace × Body) [ none ↦ x | some r ↦ f r ]).0
answer-Grows past none x f h i = h
answer-Grows past (some r) x f h i = i r

length-item_args :
    (fields : List Text) (item : Row) → length (item_args fields item) ≡ length fields
unfolding item_args
length-item_args [] item = refl
length-item_args (field ∷ fields) item = ap suc (length-item_args fields item)

module _ (env : Env) (table_name : Text) where
  -- What follows once the statement of a batch is sent.
  answered-Grows :
      (fuel size : ℕ) (fields : List Text) (items : List Row) (i : ℕ) (args : List Value)
      (total : ℤ) (past : Trace)
      → Grows past (insert_batches env table_name fuel size fields items i args total past).0
  unfolding insert_batches
  answered-Grows zero size fields items i args total past = Grows-refl past
  answered-Grows (suc fuel) size fields items i args total past =
      let batch = take size items in
      let args' = args ++ batch_args fields batch in
      let text = batch_text table_name fields (length batch) in
      let sent = past ▷ tx_exec text args' in
      if-Grows past (is_empty items) _ _ (Grows-refl past) (
        if-Grows past (not (first_length batch == length fields)) _ _ (Grows-refl past) (
          Grows-after (tx_exec text args' ∷ []) (
            answer-Grows sent (env.run_exec sent text args') _ _
              (Grows-after (log (batch_failed i (i + length batch)) ∷ [])
                (Grows-after (metric error ∷ []) (Grows-refl _)))
              (λ result.
                answered-Grows fuel size fields (drop size items) (i + size) args'
                  (wrap64 (total +ℤ rows_or_zero result.rows_affected)) sent))))

-- The question marks of the statement of one record.
count-batch_text :
    (table_name : Text) (fields : List Text)
    → 0 < length fields
    → count (batch_text table_name fields 1) b'?'
      ≡ length fields + (count table_name b'?' + counts fields b'?')
unfolding batch_text codes count
count-batch_text table_name fields h =
    count-concat _ b'?'
    ∙ omega (
      arith,
      count-join fields (codes ", ") b'?' refl,
      count-join (placeholder_text (length fields) ∷ []) (codes ",") b'?' refl,
      count-placeholder_text (length fields) h,
    )

-- The arguments of one record, and of two.
one_args : List Text → Row → List Value
unfolding batch_args
one_args fields x = batch_args fields (x ∷ [])

length-one_args : (fields : List Text) (x : Row) → length (one_args fields x) ≡ length fields
unfolding one_args batch_args
length-one_args fields x =
    omega (arith, length-append (item_args fields x) [], length-item_args fields x)

module _ (env : Env) (table_name : Text) (fields : List Text) where
  -- A round whose statement is sent.
  round-Grows :
      (fuel i : ℕ) (x : Row) (items : List Row) (args : List Value) (total : ℤ) (past : Trace)
      → length x ≡ length fields
      → Grows
          (past ▷ tx_exec (batch_text table_name fields 1) (args ++ one_args fields x))
          (insert_batches env table_name (suc fuel) 1 fields (x ∷ items) i args total past).0
  unfolding insert_batches one_args
  round-Grows fuel i x items args total past h =
      let args' = args ++ one_args fields x in
      let text = batch_text table_name fields 1 in
      let sent = past ▷ tx_exec text args' in
      rw same (
        answer-Grows sent (env.run_exec sent text args') _ _
          (Grows-after (log (batch_failed i (i + 1)) ∷ [])
            (Grows-after (metric error ∷ []) (Grows-refl _)))
          (λ result.
            answered-Grows env table_name fuel 1 fields items (i + 1) args'
              (wrap64 (total +ℤ rows_or_zero result.rows_affected)) sent))
    where
      same : (length x == length fields) ≡ true
      same = ground arith

  -- A round whose statement succeeds.
  round-goes :
      (fuel i : ℕ) (x : Row) (items : List Row) (args : List Value) (total : ℤ) (past : Trace)
      (r : ExecResult)
      → length x ≡ length fields
      → env.run_exec
          (past ▷ tx_exec (batch_text table_name fields 1) (args ++ one_args fields x))
          (batch_text table_name fields 1)
          (args ++ one_args fields x)
        ≡ some r
      → insert_batches env table_name (suc fuel) 1 fields (x ∷ items) i args total past
        ≡ insert_batches env table_name fuel 1 fields items
            (i + 1)
            (args ++ one_args fields x)
            (wrap64 (total +ℤ rows_or_zero r.rows_affected))
            (past ▷ tx_exec (batch_text table_name fields 1) (args ++ one_args fields x))
  unfolding insert_batches one_args
  round-goes fuel i x items args total past r h e = rw (same, e) refl
    where
      same : (length x == length fields) ≡ true
      same = ground arith

  -- In batches of one record, once the first statement has succeeded, the second is sent with the same
  -- text, but with the arguments of both records: besides question marks in names, it has one for
  -- each field, and two arguments for each field.
  pub second_batch-arguments :
      (fuel : ℕ) (x y : Row) (items : List Row) (total : ℤ) (past : Trace) (r : ExecResult)
      → 0 < length fields
      → length x ≡ length fields
      → length y ≡ length fields
      → env.run_exec
          (past ▷ tx_exec (batch_text table_name fields 1) (batch_args fields (x ∷ [])))
          (batch_text table_name fields 1)
          (batch_args fields (x ∷ []))
        ≡ some r
      → (args : List Value) × (more : Trace) × ((insert_batches env table_name
            (suc (suc fuel))
            1
            fields
            (x ∷ y ∷ items)
            0
            []
            total
            past).0
          ≡ (past
              ▷ tx_exec (batch_text table_name fields 1) (batch_args fields (x ∷ []))
              ▷ tx_exec (batch_text table_name fields 1) args)
            ++ more)
        × (length args ≡ 2 * length fields)
        × (count (batch_text table_name fields 1) b'?'
            ≡ length fields + (count table_name b'?' + counts fields b'?'))
  unfolding one_args
  second_batch-arguments fuel x y items total past r h hx hy e =
      let args = batch_args fields (x ∷ []) in
      let sent = past ▷ tx_exec (batch_text table_name fields 1) args in
      let second =
        round-Grows fuel 1 y items args (wrap64 (total +ℤ rows_or_zero r.rows_affected)) sent hy in
      (
        args ++ one_args fields y,
        second.more,
        ap (λ p. p.0) (round-goes (suc fuel) 0 x (y ∷ items) [] total past r hx e) ∙ second.is_more,
        omega (
          arith,
          length-append args (one_args fields y),
          length-one_args fields x,
          length-one_args fields y,
        ),
        count-batch_text table_name fields h,
      )
