-- ===== src/Batch/Answered.antt =====
-- Which of the statements of a batch were answered without an error.
use xlorm.Common.{
  ◌≡◌, ◌≢◌, refl, sym, ap, ◌∙◌, List, [], ◌∷◌, ◌++◌, Bool, true, false, ◌&&◌, none, some, arith,
  append_assoc, append-nil,
}
use xlorm.Text.{Text}
use xlorm.Value.{Value}
use xlorm.Effects.{Metric, Env, ExecResult, Event, Trace, ◌▷◌, tx_exec, metric}
use xlorm.Batch.{Body, sent_all, stops, panics}
use xlorm.Batch.Update.{Checked, good, bad}

-- An event is no statement, or its answer is well.
abbrev pub answers : Env → (ExecResult → Bool) → Trace → Event → Bool
answers env well sent (tx_exec text args) = elim (env.run_exec sent text args) [
  | none ↦ false
  | some r ↦ well r
]
answers env well sent e = true

-- All events behind those before are so, each at its time.
unfoldable pub answered : Env → (ExecResult → Bool) → Trace → List Event → Bool
answered env well past [] = true
answered env well past (e ∷ es) = answers env well (past ▷ e) e && answered env well (past ▷ e) es

-- From one trace to a later one, if `done`, all statements were answered.
pub record Answered (env : Env) (well : ExecResult → Bool) (past after : Trace) (done : Bool)
    : Type 0 where
  pub later : List Event
  pub extends : after ≡ past ++ later
  pub all_answered : done ≡ true → answered env well past later ≡ true

-- The body sent all its batches.
abbrev pub is_sent_all : Body → Bool
is_sent_all (sent_all total) = true
is_sent_all (stops total e) = false
is_sent_all panics = false

abbrev pub is_good {ℓ} : {A : Type ℓ} → Checked A → Bool
is_good (good a) = true
is_good (bad e) = false

both : (b c : Bool) → b ≡ true → c ≡ true → (b && c) ≡ true
both b c h i = ground (arith, h, i)

pub false-ne-true : false ≢ true
false-ne-true e = cc

module _ (env : Env) (well : ExecResult → Bool) where
  answered-append :
      (past : Trace) (xs ys : List Event)
      → answered env well past xs ≡ true
      → answered env well (past ++ xs) ys ≡ true
      → answered env well past (xs ++ ys) ≡ true
  unfolding answered
  answered-append past [] ys h i = ap (λ p. answered env well p ys) (sym (append-nil past)) ∙ i
  answered-append past (e ∷ xs) ys h i =
      let first = answers env well (past ▷ e) e in
      let others = answered env well (past ▷ e) xs in
      both first _ (ground (arith, h)) (
        answered-append (past ▷ e) xs ys (ground (arith, h))
          (ap (λ p. answered env well p ys) (append_assoc past (e ∷ []) xs) ∙ i))

  pub well_answer :
      (past : Trace) (text : Text) (args : List Value) (r : ExecResult)
      → env.run_exec (past ▷ tx_exec text args) text args ≡ some r
      → well r ≡ true
      → answers env well (past ▷ tx_exec text args) (tx_exec text args) ≡ true
  well_answer past text args r e w = rw (e, answers) w

module _ {env : Env} {well : ExecResult → Bool} where
  pub Answered-refl : (past : Trace) (done : Bool) → Answered env well past past done
  unfolding answered
  Answered-refl past done = record {
    later = [];
    extends = sym (append-nil past);
    all_answered = λ d. refl;
  }

  pub Answered-after :
      {a b c : Trace} {done : Bool}
      → Answered env well a b true
      → Answered env well b c done
      → Answered env well a c done
  Answered-after {a} {b} h i = record {
    later = h.later ++ i.later;
    extends = i.extends ∙ ap (λ p. p ++ i.later) h.extends ∙ append_assoc a h.later i.later;
    all_answered = λ d.
        answered-append env well a h.later i.later (h.all_answered refl)
          (ap (λ p. answered env well p i.later) (sym h.extends) ∙ i.all_answered d);
  }

  -- What came after an end that is no success.
  pub Answered-failed :
      {a b c : Trace} {done : Bool}
      → Answered env well a b done
      → Answered env well b c false
      → Answered env well a c false
  Answered-failed {a} h i = record {
    later = h.later ++ i.later;
    extends = i.extends ∙ ap (λ p. p ++ i.later) h.extends ∙ append_assoc a h.later i.later;
    all_answered = λ d. absurd (false-ne-true d);
  }

  pub Answered-event :
      (past : Trace) (e : Event) (done : Bool)
      → (done ≡ true → answers env well (past ▷ e) e ≡ true)
      → Answered env well past (past ▷ e) done
  unfolding answered
  Answered-event past e done h = record {
    later = e ∷ [];
    extends = refl;
    all_answered = λ d. both _ true (h d) refl;
  }

  -- Less is claimed of an end that is no success.
  pub Answered-less : {a b : Trace} → Answered env well a b true → Answered env well a b false
  Answered-less h = record {
    later = h.later;
    extends = h.extends;
    all_answered = λ d. absurd (false-ne-true d);
  }

  -- An event that is no statement, and a metric of what came of it.
  pub quiet_two :
      (past : Trace) (e : Event) (f : Metric)
      → (true ≡ true → answers env well (past ▷ e) e ≡ true)
      → Answered env well past (past ▷ e ▷ metric f) true
  quiet_two past e f h =
      Answered-after (Answered-event past e true h)
        (Answered-event (past ▷ e) (metric f) true (λ d. refl))

-- A body that is sent, with the answers that it needs.
abbrev pub BodyAnswered : Env → (ExecResult → Bool) → Trace → Trace × Body → Type 0
BodyAnswered env well past (after, answer) = Answered env well past after (is_sent_all answer)
