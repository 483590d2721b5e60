-- ===== src/Logger.antt =====
-- logger.go: `asyncLogger`, its worker and its `Close`, as the steps that its goroutines take in any order. A
-- record stands for itself (`R`), and the handler behind the logger answers as it likes. The channel has at
-- least one place. The timeouts of `Close` are left out;
-- the loggers that WithAttrs and WithGroup derive are in Logger/Derived.
pub mod Records
pub mod Counts
pub mod Delivery
pub mod Derived
mod Tests
use xlorm.Common.{
  ℕ, ◌+◌, ◌%◌, ◌≤◌, ◌<◌, ◌≡◌, List, [], ◌∷◌, ◌++◌, Bool, true, false, if◌then◌else◌, length, ltb,
  u64_mod,
}

-- How far `Close` is: not called, the flag `closed` set, the channel closed, the context cancelled with the
-- drain running, the drain ended, and `Close` returned once the worker has ended as well.
pub data Phase : Type 0 where
  serving : Phase
  marked : Phase
  shut : Phase
  draining : Phase
  drained : Phase
  finished : Phase

-- The channel is closed.
abbrev pub is_shut : Phase → Bool
is_shut serving = false
is_shut marked = false
is_shut shut = true
is_shut draining = true
is_shut drained = true
is_shut finished = true

-- The context is cancelled.
abbrev pub is_cancelled : Phase → Bool
is_cancelled serving = false
is_cancelled marked = false
is_cancelled shut = false
is_cancelled draining = true
is_cancelled drained = true
is_cancelled finished = true

-- The places of the channel of errors.
abbrev pub error_places : ℕ
error_places = 100

-- The errors in their channel after a send that does not wait.
abbrev pub one_error : ℕ → ℕ
one_error n = if ltb n error_places then n + 1 else n

module _ {ℓ} (R : Type ℓ) where
  -- `asyncLogger`, with the `Handle` calls that have passed the test of `closed` (`in_select`), are to count the
  -- record that they sent (`in_count`) or are to report a full channel (`in_warning`); the worker, the
  -- record that it holds and the error that it is to report (`failing`); the record that the drain
  -- holds; what the handler behind has received; and the history of the records that were taken, of
  -- those that left the channel, and of the number that was lost.
  pub record AsyncLogger : Type ℓ where
    pub capacity : ℕ
    pub ch : List R
    pub phase : Phase
    pub running : Bool
    pub in_select : List R
    pub in_count : ℕ
    pub in_warning : ℕ
    pub worker_holds : List R
    pub failing : Bool
    pub drain_holds : List R
    pub total : ℕ
    pub dropped : ℕ
    pub errors : ℕ
    pub received : List R
    pub taken : List R
    pub left : List R
    pub lost : ℕ
    pub panicked : Bool

  -- `NewAsyncLogger`
  unfoldable pub new_async_logger : ℕ → AsyncLogger
  new_async_logger buffer_size = record {
    capacity = buffer_size;
    ch = [];
    phase = serving;
    running = true;
    in_select = [];
    in_count = 0;
    in_warning = 0;
    worker_holds = [];
    failing = false;
    drain_holds = [];
    total = 0;
    dropped = 0;
    errors = 0;
    received = [];
    taken = [];
    left = [];
    lost = 0;
    panicked = false;
  }

module _ {ℓ} {R : Type ℓ} where
  -- The first case of the select of `Handle`, up to its count.
  unfoldable pub take : R → List R → AsyncLogger R → AsyncLogger R
  take r others s = record s {
    in_select = others;
    ch = s.ch ++ r ∷ [];
    in_count = s.in_count + 1;
    taken = s.taken ++ r ∷ [];
  }

  -- The default case, up to its report.
  unfoldable pub drop_record : List R → AsyncLogger R → AsyncLogger R
  drop_record others s = record s {
    in_select = others;
    dropped = (s.dropped + 1) % u64_mod;
    lost = s.lost + 1;
    in_warning = s.in_warning + 1;
  }

  -- The worker takes the first record out of the channel.
  unfoldable pub receive : R → List R → AsyncLogger R → AsyncLogger R
  receive r rest s = record s { ch = rest; worker_holds = r ∷ []; left = s.left ++ r ∷ [] }

  -- The record that it holds goes to the handler, which fails or not.
  unfoldable pub work : Bool → R → AsyncLogger R → AsyncLogger R
  work failed r s = record s {
    worker_holds = [];
    received = s.received ++ r ∷ [];
    failing = failed;
  }

  -- The same two for the drain of `Close`, which ignores the error.
  unfoldable pub drain : R → List R → AsyncLogger R → AsyncLogger R
  drain r rest s = record s { ch = rest; drain_holds = r ∷ []; left = s.left ++ r ∷ [] }

  unfoldable pub drain_work : R → AsyncLogger R → AsyncLogger R
  drain_work r s = record s { drain_holds = []; received = s.received ++ r ∷ [] }

  -- One step of a goroutine. The select of `Handle` takes any case that is ready, and a send on the closed
  -- channel is ready and panics; its default case is taken only if no case is ready.
  pub data Step : AsyncLogger R → AsyncLogger R → Type ℓ where
    handle_enters :
        (s : AsyncLogger R) (r : R)
        → s.phase ≡ serving
        → Step s (record s { in_select = r ∷ s.in_select })
    handle_sends :
        (s : AsyncLogger R) (xs ys : List R) (r : R)
        → s.in_select ≡ xs ++ r ∷ ys
        → is_shut s.phase ≡ false
        → length s.ch < s.capacity
        → Step s (take r (xs ++ ys) s)
    handle_counts :
        (s : AsyncLogger R) (n : ℕ)
        → s.in_count ≡ n + 1
        → Step s (record s { in_count = n; total = (s.total + 1) % u64_mod })
    handle_panics :
        (s : AsyncLogger R) (xs ys : List R) (r : R)
        → s.in_select ≡ xs ++ r ∷ ys
        → is_shut s.phase ≡ true
        → Step s (record s { in_select = xs ++ ys; panicked = true })
    handle_gives_up :
        (s : AsyncLogger R) (xs ys : List R) (r : R)
        → s.in_select ≡ xs ++ r ∷ ys
        → is_cancelled s.phase ≡ true
        → Step s (record s { in_select = xs ++ ys })
    handle_drops :
        (s : AsyncLogger R) (xs ys : List R) (r : R)
        → s.in_select ≡ xs ++ r ∷ ys
        → is_shut s.phase ≡ false
        → s.capacity ≤ length s.ch
        → Step s (drop_record (xs ++ ys) s)
    handle_warns :
        (s : AsyncLogger R) (n : ℕ)
        → s.in_warning ≡ n + 1
        → s.running ≡ true
        → Step s (record s { in_warning = n; errors = one_error s.errors })
    warning_panics :
        (s : AsyncLogger R) (n : ℕ)
        → s.in_warning ≡ n + 1
        → s.running ≡ false
        → Step s (record s { in_warning = n; panicked = true })
    worker_receives :
        (s : AsyncLogger R) (r : R) (rest : List R)
        → s.running ≡ true
        → s.worker_holds ≡ []
        → s.failing ≡ false
        → s.ch ≡ r ∷ rest
        → Step s (receive r rest s)
    worker_handles :
        (s : AsyncLogger R) (failed : Bool) (r : R)
        → s.worker_holds ≡ r ∷ []
        → Step s (work failed r s)
    worker_reports :
        (s : AsyncLogger R)
        → s.failing ≡ true
        → Step s (record s { failing = false; errors = one_error s.errors })
    worker_ends_empty :
        (s : AsyncLogger R)
        → s.running ≡ true
        → s.worker_holds ≡ []
        → s.failing ≡ false
        → is_shut s.phase ≡ true
        → s.ch ≡ []
        → Step s (record s { running = false })
    worker_ends_cancelled :
        (s : AsyncLogger R)
        → s.running ≡ true
        → s.worker_holds ≡ []
        → s.failing ≡ false
        → is_cancelled s.phase ≡ true
        → Step s (record s { running = false })
    close_marks : (s : AsyncLogger R) → s.phase ≡ serving → Step s (record s { phase = marked })
    close_shuts : (s : AsyncLogger R) → s.phase ≡ marked → Step s (record s { phase = shut })
    close_cancels : (s : AsyncLogger R) → s.phase ≡ shut → Step s (record s { phase = draining })
    close_receives :
        (s : AsyncLogger R) (r : R) (rest : List R)
        → s.phase ≡ draining
        → s.drain_holds ≡ []
        → s.ch ≡ r ∷ rest
        → Step s (drain r rest s)
    close_handles : (s : AsyncLogger R) (r : R) → s.drain_holds ≡ r ∷ [] → Step s (drain_work r s)
    close_ends :
        (s : AsyncLogger R)
        → s.phase ≡ draining
        → s.drain_holds ≡ []
        → s.ch ≡ []
        → Step s (record s { phase = drained })
    close_returns :
        (s : AsyncLogger R)
        → s.phase ≡ drained
        → s.running ≡ false
        → Step s (record s { phase = finished })

  -- What a new logger comes to.
  pub data Reach (buffer_size : ℕ) : AsyncLogger R → Type ℓ where
    fresh : Reach buffer_size (new_async_logger R buffer_size)
    next : {s s' : AsyncLogger R} → Reach buffer_size s → Step s s' → Reach buffer_size s'
