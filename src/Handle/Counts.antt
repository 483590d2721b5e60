-- ===== src/Handle/Counts.antt =====
-- Each call of the handle is counted exactly once.
use xlorm.Common.{
  pos, ℕ, ◌+◌, ◌≡◌, refl, List, [], ◌∷◌, ◌++◌, Bool, true, false, if◌then◌else◌, is_empty, Option,
  none, some, ltb, arith, Bool-cases, inl, inr, ◌&&◌, not,
}
use xlorm.Text.{Text}
use xlorm.Value.{Value}
use xlorm.Effects.{
  Env, Trace, ◌▷◌, Event, Metric, query, exec, prepare, metric, query_duration, error, slow, log,
  query_failed, slow_query,
}
use xlorm.Table.{Db}
use xlorm.Handle.{
  Answer, answered, refused, empty_statement, finish_call, query_db, query_with_context, exec_db,
  prepare_context,
}

-- The statements of an event, the calls counted as failed, as timed, and as slow.
abbrev pub Tally : Type 0
Tally = ℕ × ℕ × ℕ × ℕ

abbrev of_metric : Metric → Tally
of_metric error = (0, 1, 0, 0)
of_metric (query_duration name d) = (0, 0, 1, 0)
of_metric slow = (0, 0, 0, 1)
of_metric m = (0, 0, 0, 0)

abbrev of_event : Event → Tally
of_event (query text args) = (1, 0, 0, 0)
of_event (exec text args) = (1, 0, 0, 0)
of_event (prepare text) = (1, 0, 0, 0)
of_event (metric m) = of_metric m
of_event e = (0, 0, 0, 0)

abbrev pub add_tally : Tally → Tally → Tally
add_tally (a, b, c, d) (a', b', c', d') = (a + a', b + b', c + c', d + d')

unfoldable pub tally : Trace → Tally
tally [] = (0, 0, 0, 0)
tally (e ∷ es) = add_tally (of_event e) (tally es)

abbrev pub one : Bool → ℕ
one b = if b then 1 else 0

abbrev pub is_answered {ℓ} : {A : Type ℓ} → Answer A → Bool
is_answered (answered a) = true
is_answered (refused e) = false

tally-append : (xs ys : Trace) → tally (xs ++ ys) ≡ add_tally (tally xs) (tally ys)
unfolding tally
tally-append [] ys = ground arith
tally-append (e ∷ es) ys = ground (arith, tally-append es ys)

tally-snoc : (past : Trace) (e : Event) → tally (past ▷ e) ≡ add_tally (tally past) (of_event e)
unfolding tally
tally-snoc past e = ground (arith, tally-append past (e ∷ []))

-- From the events `past` to `after`, one statement was sent, and its call was counted once: as failed or
-- as timed, according to the answer, and as slow if it was answered later than the threshold.
pub record Counted {ℓ} {A : Type ℓ} (db : Db) (elapsed : ℕ) (past after : Trace) (a : Answer A)
    : Type ℓ where
  pub counted :
      tally after
      ≡ add_tally (tally past) (
        1,
        one (not (is_answered a)),
        one (is_answered a),
        one (is_answered a && ltb db.slow_query_threshold elapsed),
      )

module _ (env : Env) (db : Db) where
  finish_call-Counted {ℓ} :
      {A : Type ℓ} (name text : Text) (args : List Value) (past : Trace) (e : Event) (o : Option A)
      → of_event e ≡ (1, 0, 0, 0)
      → Counted db
          (env.elapsed (past ▷ e))
          past
          (finish_call env db name text args (past ▷ e) o).0
          (finish_call env db name text args (past ▷ e) o).1
  unfolding finish_call tally
  finish_call-Counted name text args past e none h = record {
    counted = ground (
      arith,
      h,
      tally-snoc past e,
      tally-snoc (past ▷ e) (metric error),
      tally-snoc (past ▷ e ▷ metric error) (log (query_failed text args)),
    );
  }
  finish_call-Counted name text args past e (some a) h =
      let timed = past ▷ e ▷ metric (query_duration name (pos (env.elapsed (past ▷ e)))) in
      elim (Bool-cases (ltb db.slow_query_threshold (env.elapsed (past ▷ e)))) [
        | inl l ↦ rw l (record {
          counted = ground (
            arith,
            h,
            tally-snoc past e,
            tally-snoc (past ▷ e) (metric (query_duration name (pos (env.elapsed (past ▷ e))))),
            tally-snoc timed (metric slow),
            tally-snoc (timed ▷ metric slow) (log (slow_query text args)),
          );
        })
        | inr l ↦ rw l (record {
          counted = ground (
            arith,
            h,
            tally-snoc past e,
            tally-snoc (past ▷ e) (metric (query_duration name (pos (env.elapsed (past ▷ e))))),
          );
        })
      ]

  -- Each call of the handle with a statement that is not empty sends it once and is counted once: as
  -- failed if it fails, as timed if it is answered, and then as slow exactly if it took longer than the
  -- threshold; Query and Exec of an empty statement send and count nothing.
  pub calls-Counted {ℓ} :
      {A : Type ℓ} (run_prepare : Trace → Text → Option A) (text : Text) (args : List Value)
      (past : Trace)
      → is_empty text ≡ false
      → (let (after, a) = query_db env db text args past in
          Counted db (env.elapsed (past ▷ query text args)) past after a)
        × (let (after, a) = query_with_context env db text args past in
            Counted db (env.elapsed (past ▷ query text args)) past after a)
        × (let (after, a) = exec_db env db text args past in
            Counted db (env.elapsed (past ▷ exec text args)) past after a)
        × (let (after, a) = prepare_context env db run_prepare text past in
            Counted db (env.elapsed (past ▷ prepare text)) past after a)
        × (query_db env db [] args past ≡ (past, refused empty_statement))
        × (exec_db env db [] args past ≡ (past, refused empty_statement))
  unfolding query_db query_with_context exec_db prepare_context
  calls-Counted run_prepare text args past h = rw h (
    finish_call-Counted _ text args past (query text args) _ refl,
    finish_call-Counted _ text args past (query text args) _ refl,
    finish_call-Counted _ text args past (exec text args) _ refl,
    finish_call-Counted _ text [] past (prepare text) _ refl,
    refl,
    refl,
  )
