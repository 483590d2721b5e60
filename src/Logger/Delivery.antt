-- ===== src/Logger/Delivery.antt =====
-- What becomes of the records of an asynchronous logger.
use mathlib.Core.List.{cons-ne-nil}
use xlorm.Common.{ℕ, ◌≡◌, refl, sym, ap, ◌∙◌, [], Bool, false, arith, ◌≢◌}
use xlorm.Logger.{
  Phase, drained, finished, is_shut, AsyncLogger, new_async_logger, take, drop_record, receive,
  work, drain, drain_work, Step, Reach, fresh, next, handle_enters, handle_sends, handle_counts,
  handle_panics, handle_gives_up, handle_drops, handle_warns, warning_panics, worker_receives,
  worker_handles, worker_reports, worker_ends_empty, worker_ends_cancelled, close_marks,
  close_shuts, close_cancels, close_receives, close_handles, close_ends, close_returns,
}
use xlorm.Logger.Records.{
  false-ne-true, number, number-append, number-nil, InOrder, NoneLost, WorkerAlone, Step-InOrder,
  Step-NoneLost, Step-WorkerAlone,
}
use xlorm.Logger.Counts.{AreCounted, Fit, StillRuns, Step-AreCounted, Step-Fit, Step-StillRuns}

shut_drained : (p : Phase) → is_shut p ≡ false → (p ≢ drained) × (p ≢ finished)
shut_drained p h =
    (λ e. false-ne-true (sym h ∙ ap is_shut e), λ e. false-ne-true (sym h ∙ ap is_shut e))

module _ {ℓ} {R : Type ℓ} where
  pub record IsConsistent (buffer_size : ℕ) (s : AsyncLogger R) : Type ℓ where
    pub in_order : InOrder s
    pub none_lost : NoneLost s
    pub worker_alone : WorkerAlone s
    pub counted : AreCounted s
    pub fit : Fit buffer_size s
    pub still_runs : StillRuns s

  -- In whatever order the goroutines take their steps, the send of a record and its count, and the receive of a
  -- record and its handling, being two steps each: the records that left the channel, and behind them
  -- those in it, are those that were taken, in their order; of those that left it each is received once,
  -- or still held by the worker or by the drain of Close; until Close cancels the context, they are
  -- received in order; the total and the dropped count are the numbers of those that were taken and
  -- counted, and of those lost, modulo 2^64; neither channel holds more than it has places for; and
  -- until Close closes the channel, the worker runs and nothing panics.
  pub Reach-Delivers : {n : ℕ} {s : AsyncLogger R} → Reach n s → IsConsistent n s
  unfolding new_async_logger number
  Reach-Delivers fresh = record {
    in_order = refl;
    none_lost = λ test. omega arith;
    worker_alone = λ c. (refl, refl);
    counted = (0, refl, refl, refl);
    fit = (refl, omega arith, omega arith);
    still_runs = refl;
  }
  Reach-Delivers (next reached step) =
      let h = Reach-Delivers reached in
      record {
        in_order = Step-InOrder step h.in_order;
        none_lost = Step-NoneLost step h.none_lost;
        worker_alone = Step-WorkerAlone step h.worker_alone;
        counted = Step-AreCounted step h.counted;
        fit = Step-Fit step h.fit;
        still_runs = Step-StillRuns step h.still_runs;
      }

  -- The worker ends without a record, and the drain on an empty channel, which stays empty.
  IdleOnceEnded : AsyncLogger R → Type ℓ
  IdleOnceEnded s = s.running ≡ false → s.worker_holds ≡ []

  EmptyOnceDrained : AsyncLogger R → Type ℓ
  EmptyOnceDrained s =
      (s.phase ≡ drained → (s.ch ≡ []) × (s.drain_holds ≡ []))
      × (s.phase ≡ finished → (s.ch ≡ []) × (s.drain_holds ≡ []) × (s.running ≡ false))

  Step-IdleOnceEnded : {s s' : AsyncLogger R} → Step s s' → IdleOnceEnded s → IdleOnceEnded s'
  unfolding take drop_record receive work drain drain_work IdleOnceEnded
  Step-IdleOnceEnded (worker_receives s r rest on none_held fine e) h off =
      absurd (false-ne-true (sym off ∙ on))
  Step-IdleOnceEnded (worker_handles s failed r e) h off = refl
  Step-IdleOnceEnded (worker_ends_empty s on none_held fine c e) h off = none_held
  Step-IdleOnceEnded (worker_ends_cancelled s on none_held fine c) h off = none_held
  Step-IdleOnceEnded (handle_enters s r e) h off = h off
  Step-IdleOnceEnded (handle_counts s n e) h off = h off
  Step-IdleOnceEnded (handle_panics s xs ys r e c) h off = h off
  Step-IdleOnceEnded (handle_gives_up s xs ys r e c) h off = h off
  Step-IdleOnceEnded (handle_drops s xs ys r e on full) h off = h off
  Step-IdleOnceEnded (handle_warns s n e on) h off = h off
  Step-IdleOnceEnded (warning_panics s n e x) h off = h off
  Step-IdleOnceEnded (worker_reports s e) h off = h off
  Step-IdleOnceEnded (handle_sends s xs ys r e on room) h off = h off
  Step-IdleOnceEnded (close_marks s e) h off = h off
  Step-IdleOnceEnded (close_shuts s e) h off = h off
  Step-IdleOnceEnded (close_cancels s e) h off = h off
  Step-IdleOnceEnded (close_receives s r rest on none_held e) h off = h off
  Step-IdleOnceEnded (close_handles s r e) h off = h off
  Step-IdleOnceEnded (close_ends s e none_held empty) h off = h off
  Step-IdleOnceEnded (close_returns s e off') h off = h off

  Step-EmptyOnceDrained :
      {s s' : AsyncLogger R} → Step s s' → EmptyOnceDrained s → EmptyOnceDrained s'
  unfolding take drop_record receive work drain drain_work EmptyOnceDrained
  Step-EmptyOnceDrained (handle_sends s xs ys r e on room) h =
      let (not_drained, not_finished) = shut_drained s.phase on in
      (λ d. absurd (not_drained d), λ d. absurd (not_finished d))
  Step-EmptyOnceDrained (worker_receives s r rest on none_held fine e) (h, i) = (
    λ d. absurd (cons-ne-nil _ _ (sym e ∙ (h d).0)),
    λ d. absurd (cons-ne-nil _ _ (sym e ∙ (i d).0)),
  )
  Step-EmptyOnceDrained (worker_ends_empty s on none_held fine c e) (h, i) =
      (h, λ d. ((i d).0, (i d).1, refl))
  Step-EmptyOnceDrained (worker_ends_cancelled s on none_held fine c) (h, i) =
      (h, λ d. ((i d).0, (i d).1, refl))
  Step-EmptyOnceDrained (close_marks s e) h = (λ d. absurd cc, λ d. absurd cc)
  Step-EmptyOnceDrained (close_shuts s e) h = (λ d. absurd cc, λ d. absurd cc)
  Step-EmptyOnceDrained (close_cancels s e) h = (λ d. absurd cc, λ d. absurd cc)
  Step-EmptyOnceDrained (close_receives s r rest on none_held e) h =
      (λ d. absurd cc, λ d. absurd cc)
  Step-EmptyOnceDrained (close_handles s r e) (h, i) =
      (λ d. ((h d).0, refl), λ d. ((i d).0, refl, (i d).2))
  Step-EmptyOnceDrained (close_ends s e none_held empty) h =
      (λ d. (empty, none_held), λ d. absurd cc)
  Step-EmptyOnceDrained (close_returns s e off) (h, i) =
      (λ d. absurd cc, λ d. ((h e).0, (h e).1, off))
  Step-EmptyOnceDrained (handle_enters s r e) h = h
  Step-EmptyOnceDrained (handle_counts s n e) h = h
  Step-EmptyOnceDrained (handle_panics s xs ys r e c) h = h
  Step-EmptyOnceDrained (handle_gives_up s xs ys r e c) h = h
  Step-EmptyOnceDrained (handle_drops s xs ys r e on full) h = h
  Step-EmptyOnceDrained (handle_warns s n e on) h = h
  Step-EmptyOnceDrained (warning_panics s n e off) h = h
  Step-EmptyOnceDrained (worker_reports s e) h = h
  Step-EmptyOnceDrained (worker_handles s failed r e) h = h

  Reach-ends : {n : ℕ} {s : AsyncLogger R} → Reach n s → IdleOnceEnded s × EmptyOnceDrained s
  unfolding new_async_logger IdleOnceEnded EmptyOnceDrained
  Reach-ends fresh = (λ off. refl, (λ d. absurd cc, λ d. absurd cc))
  Reach-ends (next reached step) =
      let (h, i) = Reach-ends reached in (Step-IdleOnceEnded step h, Step-EmptyOnceDrained step i)

  -- Once Close has returned without a timeout, the handler has received every record that was ever taken, each
  -- once (by any test, as many are received as were taken), whatever the worker left in the channel
  -- when it ended.
  pub finished-received :
      {n : ℕ} {s : AsyncLogger R}
      → Reach n s
      → s.phase ≡ finished
      → (test : R → Bool) → number test s.received ≡ number test s.taken
  unfolding IdleOnceEnded EmptyOnceDrained
  finished-received {n} {s} reached d test =
      let h = Reach-Delivers reached in
      let (idle, (_, ended)) = Reach-ends reached in
      let (empty, none_drained, off) = ended d in
      omega (
        arith,
        h.none_lost test,
        number-nil test (idle off),
        number-nil test none_drained,
        number-nil test empty,
        number-append test s.left s.ch,
        ap (number test) h.in_order,
      )
