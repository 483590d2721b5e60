-- ===== src/Metrics/Ring.antt =====
-- metrics.go: `ringBuffer`, a circular buffer that overwrites its oldest element when it is full. An
-- empty place holds the nil function, `none`. Each method runs under the mutex, as one step.
pub mod Places
pub mod Refine
use xlorm.Common.{
  ℕ, ◌+◌, ◌-◌, ◌%◌, List, ◌==◌, Bool, true, false, Option, none, some, if◌then◌else◌, replicate,
  set, get_or,
}

module _ {ℓ} (A : Type ℓ) where
  pub record RingBuffer : Type ℓ where
    pub buffer : List (Option A)
    pub size : ℕ
    pub head : ℕ
    pub tail : ℕ
    pub count : ℕ

module _ {ℓ} {A : Type ℓ} where
  -- `newRingBuffer`
  unfoldable pub new_ring_buffer : ℕ → RingBuffer A
  new_ring_buffer size = record {
    buffer = replicate size none;
    size = size;
    head = 0;
    tail = 0;
    count = 0;
  }

  -- `Enqueue`: false says that the oldest element was overwritten.
  unfoldable pub enqueue : RingBuffer A → A → RingBuffer A × Bool
  enqueue rb item =
      if rb.count == rb.size
      then (
        record rb {
          head = (rb.head + 1) % rb.size;
          buffer = set rb.buffer rb.tail (some item);
          tail = (rb.tail + 1) % rb.size;
        },
        false,
      )
      else (
        record rb {
          buffer = set rb.buffer rb.tail (some item);
          tail = (rb.tail + 1) % rb.size;
          count = rb.count + 1;
        },
        true,
      )

  -- `Dequeue`: `none` is the answer false; `some none` would be a nil function.
  unfoldable pub dequeue : RingBuffer A → RingBuffer A × Option (Option A)
  dequeue rb = if rb.count == 0 then (rb, none) else (
    record rb { head = (rb.head + 1) % rb.size; count = rb.count - 1 },
    some (get_or rb.buffer rb.head none),
  )
