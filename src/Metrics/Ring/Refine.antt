-- ===== src/Metrics/Ring/Refine.antt =====
-- The ring buffer against a queue of at most `size` elements that drops its oldest.
use native.Mathlib.Nat.{mod-lt, mod-eq_of_lt}
use native.Mathlib.Decide.{dec_lt}
use xlorm.Common.{
  ℕ, zero, suc, ◌+◌, ◌-◌, ◌%◌, ◌≤◌, ◌<◌, ◌≡◌, refl, ap, ap₂, ◌∙◌, sym, List, [], ◌∷◌, ◌++◌, ◌==◌,
  map, Bool, true, false, Option, none, some, if◌then◌else◌, set, get_or, length, length-append,
  drop, length-set, length-replicate, get_or-set_self, get_or-set_ne, arith,
}
use xlorm.Metrics.Ring.{RingBuffer, new_ring_buffer, enqueue, dequeue}
use xlorm.Metrics.Ring.Places.{step-ne, next_place, tail-on, tail-round}

module _ {ℓ} {A : Type ℓ} where
  -- The places of `n` elements from the index `h` on, round the end of the buffer.
  abbrev pub slots : List (Option A) → ℕ → ℕ → ℕ → List (Option A)
  slots buffer size h zero = []
  slots buffer size h (suc n) = get_or buffer h none ∷ slots buffer size ((h + 1) % size) n

  -- The buffer holds the queue `q`, oldest first: the indices are in range, the tail is behind the
  -- last element, and the places in between hold the elements.
  pub record Holds (rb : RingBuffer A) (q : List A) : Type ℓ where
    pub places : length rb.buffer ≡ rb.size
    pub some_place : 0 < rb.size
    pub head_in : rb.head < rb.size
    pub fits : rb.count ≤ rb.size
    pub tail_behind : rb.tail ≡ (rb.head + rb.count) % rb.size
    pub as_many : length q ≡ rb.count
    pub elements : slots rb.buffer rb.size rb.head rb.count ≡ map some q

  -- The queue that a ring buffer of `size` places promises.
  unfoldable pub drop_oldest : List A → List A
  drop_oldest [] = []
  drop_oldest (x ∷ q) = q

  unfoldable pub push : ℕ → List A → A → List A × Bool
  unfolding drop_oldest
  push size q x = if length q == size then (drop_oldest q ++ x ∷ [], false) else (q ++ x ∷ [], true)

  unfoldable pub pop : List A → List A × Option (Option A)
  pop [] = ([], none)
  pop (x ∷ q) = (q, some (some x))

  -- A write behind the last element puts it at the end.
  slots-set :
      (buffer : List (Option A)) (size : ℕ) (v : Option A) (n h i : ℕ)
      → length buffer ≡ size
      → h < size
      → n < size
      → i ≡ (h + n) % size
      → slots (set buffer i v) size h (suc n) ≡ slots buffer size h n ++ v ∷ []
  slots-set buffer size v zero h i hl hh hn e =
      ap (λ a. a ∷ []) (rw at_head (get_or-set_self buffer h v none (omega arith)))
    where
      here : h + 0 ≡ h
      here = omega arith

      at_head : i ≡ h
      at_head = e ∙ ap (λ j. j % size) here ∙ mod-eq_of_lt hh
  slots-set buffer size v (suc n) h i hl hh hn e =
      ap₂ ◌∷◌ (get_or-set_ne buffer v none (λ same. step-ne hh hn (sym e ∙ same))) (
        slots-set buffer size v n ((h + 1) % size) i hl (mod-lt (h + 1) (omega arith)) (omega arith)
          (e ∙ next_place h n size))

  -- A new buffer holds nothing.
  pub new_ring_buffer-Holds : (size : ℕ) → 0 < size → Holds (new_ring_buffer size) []
  unfolding new_ring_buffer
  new_ring_buffer-Holds size h = record {
    places = length-replicate size none;
    some_place = h;
    head_in = h;
    fits = omega arith;
    tail_behind = sym (mod-eq_of_lt h);
    as_many = refl;
    elements = refl;
  }

  map-snoc : (q : List A) (x : A) → map some (q ++ x ∷ []) ≡ map some q ++ some x ∷ []
  map-snoc [] x = refl
  map-snoc (y ∷ q) x = ap (λ r. some y ∷ r) (map-snoc q x)

  pub length-snoc : (q : List A) (x : A) → length (q ++ x ∷ []) ≡ length q + 1
  length-snoc q x = length-append q (x ∷ [])

  rest_elements :
      (rb : RingBuffer A) (y : A) (q : List A)
      → Holds rb (y ∷ q)
      → slots rb.buffer rb.size ((rb.head + 1) % rb.size) (length q) ≡ map some q
  rest_elements rb y q h = ap (drop 1) (ap (slots rb.buffer rb.size rb.head) h.as_many ∙ h.elements)

  first_element :
      (rb : RingBuffer A) (y : A) (q : List A)
      → Holds rb (y ∷ q)
      → get_or rb.buffer rb.head none ≡ some y
  first_element rb y q h =
      ap (λ l. get_or l 0 none) (ap (slots rb.buffer rb.size rb.head) h.as_many ∙ h.elements)

  -- With a free place, the element goes behind the last one.
  enqueue-room :
      (rb : RingBuffer A) (q : List A) (x : A)
      → Holds rb q
      → rb.count < rb.size
      → Holds (enqueue rb x).0 (push rb.size q x).0 × ((enqueue rb x).1 ≡ (push rb.size q x).1)
  unfolding enqueue push
  enqueue-room rb q x h lt =
      rw (not_full, q_not_full)
        (
          record {
            places = length-set rb.buffer rb.tail (some x) ∙ h.places;
            some_place = h.some_place;
            head_in = h.head_in;
            fits = omega arith;
            tail_behind = tail-on rb.head rb.count rb.tail rb.size h.tail_behind;
            as_many = omega (arith, length-snoc q x, h.as_many);
            elements =
                (ap (slots (set rb.buffer rb.tail (some x)) rb.size rb.head) (one_more rb.count)
                  ∙ slots-set rb.buffer rb.size (some x) rb.count rb.head rb.tail h.places h.head_in
                      lt h.tail_behind
                  ∙ ap (λ r. r ++ some x ∷ []) h.elements
                  ∙ sym (map-snoc q x));
          },
          refl,
        )
    where
      not_full : (rb.count == rb.size) ≡ false
      not_full = ground arith

      q_not_full : (length q == rb.size) ≡ false
      q_not_full = ground (arith, h.as_many)

      one_more : (n : ℕ) → n + 1 ≡ suc n
      one_more n = omega arith

  -- A full buffer gives up its oldest element.
  enqueue-full :
      (rb : RingBuffer A) (q : List A) (x : A)
      → Holds rb q
      → rb.count ≡ rb.size
      → Holds (enqueue rb x).0 (push rb.size q x).0 × ((enqueue rb x).1 ≡ (push rb.size q x).1)
  unfolding enqueue push drop_oldest
  enqueue-full rb [] x h full = absurd (omega (arith, h.as_many, h.some_place))
  enqueue-full rb (y ∷ q) x h full =
      rw (is_full, q_full)
        (
          record {
            places = length-set rb.buffer rb.tail (some x) ∙ h.places;
            some_place = h.some_place;
            head_in = mod-lt (rb.head + 1) h.some_place;
            fits = h.fits;
            tail_behind =
                ap (λ t. (t + 1) % rb.size)
                  (h.tail_behind ∙ tail-round rb.head rb.count rb.size h.head_in full)
                ∙ sym (
                    tail-round ((rb.head + 1) % rb.size) rb.count rb.size
                      (mod-lt (rb.head + 1) h.some_place) full);
            as_many = omega (arith, length-snoc q x, h.as_many);
            elements =
                ap (slots (set rb.buffer rb.tail (some x)) rb.size ((rb.head + 1) % rb.size))
                  (sym h.as_many)
                ∙ slots-set rb.buffer rb.size (some x) (length q) ((rb.head + 1) % rb.size) rb.tail
                    h.places (mod-lt (rb.head + 1) h.some_place) (omega (arith, h.as_many))
                    (h.tail_behind
                      ∙ ap (λ c. (rb.head + c) % rb.size) (sym h.as_many)
                      ∙ next_place rb.head (length q) rb.size)
                ∙ ap (λ r. r ++ some x ∷ []) (rest_elements rb y q h)
                ∙ sym (map-snoc q x);
          },
          refl,
        )
    where
      is_full : (rb.count == rb.size) ≡ true
      is_full = ground arith

      q_full : (suc (length q) == rb.size) ≡ true
      q_full = ground (arith, h.as_many)

  -- The ring buffer does what the bounded queue does, its answer included.
  pub enqueue-push :
      (rb : RingBuffer A) (q : List A) (x : A)
      → Holds rb q
      → Holds (enqueue rb x).0 (push rb.size q x).0 × ((enqueue rb x).1 ≡ (push rb.size q x).1)
  enqueue-push rb q x h = elim (dec_lt rb.count rb.size) [
    | yes lt ↦ enqueue-room rb q x h lt
    | no ge ↦ enqueue-full rb q x h (omega (arith, h.fits))
  ]

  -- A dequeue takes the oldest element of the queue that the ring buffer holds, or answers that there
  -- is none.
  pub dequeue-pop :
      (rb : RingBuffer A) (q : List A)
      → Holds rb q
      → Holds (dequeue rb).0 (pop q).0 × ((dequeue rb).1 ≡ (pop q).1)
  unfolding dequeue pop
  dequeue-pop rb [] h = rw empty (h, refl)
    where
      empty : (rb.count == 0) ≡ true
      empty = ground (arith, h.as_many)
  dequeue-pop rb (y ∷ q) h = rw some_left (
    record {
      places = h.places;
      some_place = h.some_place;
      head_in = mod-lt (rb.head + 1) h.some_place;
      fits = omega (arith, h.fits);
      tail_behind =
          h.tail_behind
          ∙ ap (λ c. (rb.head + c) % rb.size) (sym h.as_many)
          ∙ next_place rb.head (length q) rb.size
          ∙ ap (λ c. ((rb.head + 1) % rb.size + c) % rb.size) one_less;
      as_many = one_less;
      elements =
          ap (slots rb.buffer rb.size ((rb.head + 1) % rb.size)) (sym one_less)
          ∙ rest_elements rb y q h;
    },
    ap some (first_element rb y q h),
  )
    where
      some_left : (rb.count == 0) ≡ false
      some_left = ground (arith, h.as_many)

      one_less : length q ≡ rb.count - 1
      one_less = omega (arith, h.as_many)
