-- ===== src/Logger/Records.antt =====
-- Where the records of an asynchronous logger are.
use mathlib.Core.List.{cons-ne-nil}
use xlorm.Common.{
  ℕ, ◌+◌, ◌≡◌, sym, ap, ◌∙◌, List, [], ◌∷◌, ◌++◌, Bool, true, false, if◌then◌else◌, append_assoc,
  append-nil, arith, ◌≢◌,
}
use xlorm.Logger.{
  is_cancelled, AsyncLogger, take, drop_record, receive, work, drain, drain_work, Step,
  handle_enters, handle_sends, handle_counts, handle_panics, handle_gives_up, handle_drops,
  handle_warns, warning_panics, worker_receives, worker_handles, worker_reports, worker_ends_empty,
  worker_ends_cancelled, close_marks, close_shuts, close_cancels, close_receives, close_handles,
  close_ends, close_returns,
}

pub false-ne-true : false ≢ true
false-ne-true e = cc

-- How many of the records pass a test.
unfoldable pub number {ℓ} : {R : Type ℓ} → (R → Bool) → List R → ℕ
number test [] = 0
number test (r ∷ rs) = (if test r then 1 else 0) + number test rs

pub number-append {ℓ} :
    {R : Type ℓ} (test : R → Bool) (xs ys : List R)
    → number test (xs ++ ys) ≡ number test xs + number test ys
unfolding number
number-append test [] ys = omega arith
number-append test (x ∷ xs) ys = omega (arith, number-append test xs ys)

pub number-nil {ℓ} : {R : Type ℓ} (test : R → Bool) {xs : List R} → xs ≡ [] → number test xs ≡ 0
unfolding number
number-nil test e = ap (number test) e

module _ {ℓ} {R : Type ℓ} where
  -- The records that left the channel, and behind them those in it, are those that were taken, in order.
  abbrev pub InOrder : AsyncLogger R → Type ℓ
  InOrder s = s.left ++ s.ch ≡ s.taken

  -- Of the records that left the channel each is received or held, once: by any test, as many.
  abbrev pub NoneLost : AsyncLogger R → Type ℓ
  NoneLost s =
      (test : R → Bool)
      → number test s.received + number test s.worker_holds + number test s.drain_holds
        ≡ number test s.left

  -- Before `Close` cancels the context, they are received in order, but for the one that the worker holds.
  abbrev pub WorkerAlone : AsyncLogger R → Type ℓ
  WorkerAlone s =
      is_cancelled s.phase ≡ false → (s.drain_holds ≡ []) × (s.received ++ s.worker_holds ≡ s.left)

  leaves-InOrder :
      (r : R) (rest : List R) (s : AsyncLogger R)
      → s.ch ≡ r ∷ rest
      → InOrder s
      → (s.left ++ r ∷ []) ++ rest ≡ s.taken
  leaves-InOrder r rest s e h =
      append_assoc s.left (r ∷ []) rest ∙ ap (λ q. s.left ++ q) (sym e) ∙ h

  pub Step-InOrder : {s s' : AsyncLogger R} → Step s s' → InOrder s → InOrder s'
  unfolding take drop_record receive work drain drain_work
  Step-InOrder (handle_sends s xs ys r e on room) h =
      sym (append_assoc s.left s.ch (r ∷ [])) ∙ ap (λ q. q ++ r ∷ []) h
  Step-InOrder (worker_receives s r rest on none_held fine e) h = leaves-InOrder r rest s e h
  Step-InOrder (close_receives s r rest on none_held e) h = leaves-InOrder r rest s e h
  Step-InOrder (handle_enters s r e) h = h
  Step-InOrder (handle_counts s n e) h = h
  Step-InOrder (handle_panics s xs ys r e c) h = h
  Step-InOrder (handle_gives_up s xs ys r e c) h = h
  Step-InOrder (handle_drops s xs ys r e on full) h = h
  Step-InOrder (handle_warns s n e on) h = h
  Step-InOrder (warning_panics s n e off) h = h
  Step-InOrder (worker_handles s failed r e) h = h
  Step-InOrder (worker_reports s e) h = h
  Step-InOrder (worker_ends_empty s on none_held fine c e) h = h
  Step-InOrder (worker_ends_cancelled s on none_held fine c) h = h
  Step-InOrder (close_marks s e) h = h
  Step-InOrder (close_shuts s e) h = h
  Step-InOrder (close_cancels s e) h = h
  Step-InOrder (close_handles s r e) h = h
  Step-InOrder (close_ends s e none_held empty) h = h
  Step-InOrder (close_returns s e off) h = h

  pub Step-NoneLost : {s s' : AsyncLogger R} → Step s s' → NoneLost s → NoneLost s'
  unfolding take drop_record receive work drain drain_work number
  Step-NoneLost (worker_receives s r rest on none_held fine e) h test =
      omega (arith, h test, number-nil test none_held, number-append test s.left (r ∷ []))
  Step-NoneLost (worker_handles s failed r e) h test =
      omega (arith, h test, ap (number test) e, number-append test s.received (r ∷ []))
  Step-NoneLost (close_receives s r rest on none_held e) h test =
      omega (arith, h test, number-nil test none_held, number-append test s.left (r ∷ []))
  Step-NoneLost (close_handles s r e) h test =
      omega (arith, h test, ap (number test) e, number-append test s.received (r ∷ []))
  Step-NoneLost (handle_sends s xs ys r e on room) h test = h test
  Step-NoneLost (handle_enters s r e) h test = h test
  Step-NoneLost (handle_counts s n e) h test = h test
  Step-NoneLost (handle_panics s xs ys r e c) h test = h test
  Step-NoneLost (handle_gives_up s xs ys r e c) h test = h test
  Step-NoneLost (handle_drops s xs ys r e on full) h test = h test
  Step-NoneLost (handle_warns s n e on) h test = h test
  Step-NoneLost (warning_panics s n e off) h test = h test
  Step-NoneLost (worker_reports s e) h test = h test
  Step-NoneLost (worker_ends_empty s on none_held fine c e) h test = h test
  Step-NoneLost (worker_ends_cancelled s on none_held fine c) h test = h test
  Step-NoneLost (close_marks s e) h test = h test
  Step-NoneLost (close_shuts s e) h test = h test
  Step-NoneLost (close_cancels s e) h test = h test
  Step-NoneLost (close_ends s e none_held empty) h test = h test
  Step-NoneLost (close_returns s e off) h test = h test

  pub Step-WorkerAlone : {s s' : AsyncLogger R} → Step s s' → WorkerAlone s → WorkerAlone s'
  unfolding take drop_record receive work drain drain_work
  Step-WorkerAlone (worker_receives s r rest on none_held fine e) h c =
      let (none_drained, same) = h c in
      (
        none_drained,
        ap (λ q. q ++ r ∷ [])
            (sym (append-nil s.received) ∙ ap (λ held. s.received ++ held) (sym none_held) ∙ same),
      )
  Step-WorkerAlone (worker_handles s failed r e) h c =
      let (none_drained, same) = h c in
      (
        none_drained,
        append-nil (s.received ++ r ∷ []) ∙ ap (λ held. s.received ++ held) (sym e) ∙ same,
      )
  Step-WorkerAlone (close_receives s r rest on none_held e) h c =
      absurd (false-ne-true (sym c ∙ ap is_cancelled on))
  Step-WorkerAlone (close_handles s r e) h c = absurd (cons-ne-nil _ _ (sym e ∙ (h c).0))
  Step-WorkerAlone (close_marks s e) h c = h (ap is_cancelled e)
  Step-WorkerAlone (close_shuts s e) h c = h (ap is_cancelled e)
  Step-WorkerAlone (close_cancels s e) h c = absurd (false-ne-true (sym c))
  Step-WorkerAlone (close_ends s e none_held empty) h c = absurd (false-ne-true (sym c))
  Step-WorkerAlone (close_returns s e off) h c = absurd (false-ne-true (sym c))
  Step-WorkerAlone (handle_sends s xs ys r e on room) h c = h c
  Step-WorkerAlone (handle_enters s r e) h c = h c
  Step-WorkerAlone (handle_counts s n e) h c = h c
  Step-WorkerAlone (handle_panics s xs ys r e x) h c = h c
  Step-WorkerAlone (handle_gives_up s xs ys r e x) h c = h c
  Step-WorkerAlone (handle_drops s xs ys r e on full) h c = h c
  Step-WorkerAlone (handle_warns s n e on) h c = h c
  Step-WorkerAlone (warning_panics s n e off) h c = h c
  Step-WorkerAlone (worker_reports s e) h c = h c
  Step-WorkerAlone (worker_ends_empty s on none_held fine x e) h c = h c
  Step-WorkerAlone (worker_ends_cancelled s on none_held fine x) h c = h c
