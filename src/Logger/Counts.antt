-- ===== src/Logger/Counts.antt =====
-- What an asynchronous logger counts, and how long its worker runs.
use xlorm.Common.{
  ℕ, ◌+◌, ◌%◌, ◌≤◌, ◌≡◌, refl, ap, [], ◌∷◌, true, length, u64_mod, length-append, arith, ◌||◌, ◌&&◌,
  not,
}
use xlorm.Logger.{
  Phase, serving, marked, shut, draining, drained, finished, is_shut, is_cancelled, AsyncLogger,
  take, drop_record, receive, work, drain, drain_work, error_places, one_error, Step, handle_enters,
  handle_sends, handle_counts, handle_panics, handle_gives_up, handle_drops, handle_warns,
  warning_panics, worker_receives, worker_handles, worker_reports, worker_ends_empty,
  worker_ends_cancelled, close_marks, close_shuts, close_cancels, close_receives, close_handles,
  close_ends, close_returns,
}

cancelled-shut : (p : Phase) → is_cancelled p ≡ true → is_shut p ≡ true
cancelled-shut serving h = h
cancelled-shut marked h = h
cancelled-shut shut h = refl
cancelled-shut draining h = refl
cancelled-shut drained h = refl
cancelled-shut finished h = refl

one_error_fits : (n : ℕ) → n ≤ error_places → one_error n ≤ error_places
one_error_fits n h = ground arith

module _ {ℓ} {R : Type ℓ} where
  -- The counts are those of the history, modulo 2^64, where the calls that are still to count their record are
  -- left out of the total.
  abbrev pub AreCounted : AsyncLogger R → Type 0
  AreCounted s =
      (counted : ℕ) × (counted + s.in_count ≡ length s.taken)
      × (s.total ≡ counted % u64_mod)
      × (s.dropped ≡ s.lost % u64_mod)

  -- Neither channel holds more than it has places for.
  abbrev pub Fit : ℕ → AsyncLogger R → Type 0
  Fit buffer_size s =
      (s.capacity ≡ buffer_size) × (length s.ch ≤ buffer_size) × (s.errors ≤ error_places)

  -- Before the channel is closed the worker runs and nothing has panicked.
  abbrev pub StillRuns : AsyncLogger R → Type 0
  StillRuns s = (is_shut s.phase || (not s.panicked && s.running)) ≡ true

  pub Step-AreCounted : {s s' : AsyncLogger R} → Step s s' → AreCounted s → AreCounted s'
  unfolding take drop_record receive work drain drain_work
  Step-AreCounted (handle_sends s xs ys r e on room) (k, all, t, d) =
      (k, omega (arith, all, length-append s.taken (r ∷ [])), t, d)
  Step-AreCounted (handle_counts s n e) (k, all, t, d) =
      (k + 1, omega (arith, all, e), omega (arith, t), d)
  Step-AreCounted (handle_drops s xs ys r e on full) (k, all, t, d) = (k, all, t, omega (arith, d))
  Step-AreCounted (worker_receives s r rest on none_held fine e) h = h
  Step-AreCounted (worker_handles s failed r e) h = h
  Step-AreCounted (close_receives s r rest on none_held e) h = h
  Step-AreCounted (close_handles s r e) h = h
  Step-AreCounted (close_marks s e) h = h
  Step-AreCounted (close_shuts s e) h = h
  Step-AreCounted (close_cancels s e) h = h
  Step-AreCounted (close_ends s e none_held empty) h = h
  Step-AreCounted (close_returns s e off) h = h
  Step-AreCounted (handle_enters s r e) h = h
  Step-AreCounted (handle_panics s xs ys r e c) h = h
  Step-AreCounted (handle_gives_up s xs ys r e c) h = h
  Step-AreCounted (handle_warns s n e on) h = h
  Step-AreCounted (warning_panics s n e off) h = h
  Step-AreCounted (worker_reports s e) h = h
  Step-AreCounted (worker_ends_empty s on none_held fine c e) h = h
  Step-AreCounted (worker_ends_cancelled s on none_held fine c) h = h

  pub Step-Fit : {n : ℕ} {s s' : AsyncLogger R} → Step s s' → Fit n s → Fit n s'
  unfolding take drop_record receive work drain drain_work
  Step-Fit (handle_sends s xs ys r e on room) (c, l, f) =
      (c, omega (arith, room, c, length-append s.ch (r ∷ [])), f)
  Step-Fit (handle_warns s n e on) (c, l, f) = (c, l, one_error_fits s.errors f)
  Step-Fit (worker_reports s e) (c, l, f) = (c, l, one_error_fits s.errors f)
  Step-Fit (worker_receives s r rest on none_held fine e) (c, l, f) =
      (c, omega (arith, l, ap length e), f)
  Step-Fit (close_receives s r rest on none_held e) (c, l, f) =
      (c, omega (arith, l, ap length e), f)
  Step-Fit (handle_drops s xs ys r e on full) h = h
  Step-Fit (handle_enters s r e) h = h
  Step-Fit (handle_counts s n e) h = h
  Step-Fit (handle_panics s xs ys r e c) h = h
  Step-Fit (handle_gives_up s xs ys r e c) h = h
  Step-Fit (warning_panics s n e off) h = h
  Step-Fit (worker_handles s failed r e) h = h
  Step-Fit (worker_ends_empty s on none_held fine c e) h = h
  Step-Fit (worker_ends_cancelled s on none_held fine c) h = h
  Step-Fit (close_marks s e) h = h
  Step-Fit (close_shuts s e) h = h
  Step-Fit (close_cancels s e) h = h
  Step-Fit (close_handles s r e) h = h
  Step-Fit (close_ends s e none_held empty) h = h
  Step-Fit (close_returns s e off) h = h

  pub Step-StillRuns : {s s' : AsyncLogger R} → Step s s' → StillRuns s → StillRuns s'
  unfolding take drop_record receive work drain drain_work
  Step-StillRuns (handle_panics s xs ys r e c) h = ground (arith, c)
  Step-StillRuns (warning_panics s n e off) h = ground (arith, h, off)
  Step-StillRuns (worker_ends_empty s on none_held fine c e) h = ground (arith, c)
  Step-StillRuns (worker_ends_cancelled s on none_held fine c) h =
      ground (arith, cancelled-shut s.phase c)
  Step-StillRuns (close_marks s e) h = rw e at h
  Step-StillRuns (close_shuts s e) h = refl
  Step-StillRuns (close_cancels s e) h = refl
  Step-StillRuns (close_ends s e none_held empty) h = refl
  Step-StillRuns (close_returns s e off) h = refl
  Step-StillRuns (handle_enters s r e) h = h
  Step-StillRuns (handle_sends s xs ys r e on room) h = h
  Step-StillRuns (handle_counts s n e) h = h
  Step-StillRuns (handle_gives_up s xs ys r e c) h = h
  Step-StillRuns (handle_drops s xs ys r e on full) h = h
  Step-StillRuns (handle_warns s n e on) h = h
  Step-StillRuns (worker_receives s r rest on none_held fine e) h = h
  Step-StillRuns (worker_handles s failed r e) h = h
  Step-StillRuns (worker_reports s e) h = h
  Step-StillRuns (close_receives s r rest on none_held e) h = h
  Step-StillRuns (close_handles s r e) h = h
