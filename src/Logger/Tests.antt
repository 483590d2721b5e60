-- ===== src/Logger/Tests.antt =====
-- A run of the logger: one record is sent and held by the worker, one waits at the select when the logger is
-- closed, and the drain finds the channel empty.
use xlorm.Common.{ltb, ◌≡◌, refl, [], ◌∷◌, true, false, arith, ℕ}
use xlorm.Logger.{
  AsyncLogger, new_async_logger, take, receive, work, Reach, fresh, next, draining, finished,
  handle_enters, handle_sends, handle_counts, worker_receives, worker_handles,
  worker_ends_cancelled, handle_panics, close_marks, close_shuts, close_cancels, close_ends,
  close_returns,
}
use xlorm.Logger.Records.{number}
use xlorm.Logger.Delivery.{IsConsistent, Reach-Delivers, finished-received}

-- Two `Handle` calls have passed the test, the first has sent its record, and the worker holds it.
abbrev sent : AsyncLogger ℕ
sent = record (new_async_logger ℕ 2) {
  in_select = 8 ∷ [];
  in_count = 1;
  worker_holds = 7 ∷ [];
  taken = 7 ∷ [];
  left = 7 ∷ [];
}

abbrev closing : AsyncLogger ℕ
closing = record sent { phase = draining; in_count = 0; total = 1 }

abbrev ended : AsyncLogger ℕ
ended = record closing { phase = finished; running = false; worker_holds = []; received = 7 ∷ [] }

sent-Reach : Reach 2 sent
unfolding new_async_logger take receive
sent-Reach =
    next
      (next (next (next fresh (handle_enters _ 8 refl)) (handle_enters _ 7 refl))
        (handle_sends _ [] (8 ∷ []) 7 refl refl (omega arith)))
      (worker_receives _ 7 [] refl refl refl refl)

closing-Reach : Reach 2 closing
unfolding new_async_logger
closing-Reach =
    next
      (next (next (next sent-Reach (handle_counts _ 0 refl)) (close_marks _ refl))
        (close_shuts _ refl))
      (close_cancels _ refl)

-- The drain ends before the worker has handled its record.
ended-Reach : Reach 2 ended
unfolding new_async_logger work
ended-Reach =
    next
      (next
        (next (next closing-Reach (close_ends _ refl refl refl)) (worker_handles _ false 7 refl))
        (worker_ends_cancelled _ refl refl refl refl))
      (close_returns _ refl refl)

-- The call that waits may send on the closed channel.
panic-Reach : Reach 2 (record ended { in_select = []; panicked = true })
unfolding new_async_logger
panic-Reach = next ended-Reach (handle_panics _ [] [] 8 refl refl)

Reach-Delivers_example : IsConsistent 2 sent
Reach-Delivers_example = Reach-Delivers sent-Reach

finished-received_example : number (λ n. ltb n 8) ended.received ≡ number (λ n. ltb n 8) ended.taken
unfolding new_async_logger
finished-received_example = finished-received ended-Reach refl (λ n. ltb n 8)
