-- ===== src/Logger/Derived.antt =====
-- logger.go: the loggers that WithAttrs and WithGroup derive, called one after the other. They share the channel and
-- its context with the first one, but each has a flag `closed` of its own. The worker takes no step between
-- the calls.
use xlorm.Common.{
  ℕ, ◌≡◌, refl, List, [], ◌∷◌, ◌++◌, Bool, true, false, ◌==◌, if◌then◌else◌, Option, none, some,
  length, ltb, inl, inr, Bool-cases,
}

-- What a call comes to: a `Handle` takes the record, drops it or refuses it, and `Close` returns; a send on the closed
-- channel is as ready as the context, and panics if it is chosen; closing it again panics.
pub data Answer : Type 0 where
  taken : Answer
  dropped : Answer
  refused : Answer
  closed : Answer
  may_panic : Answer
  panics : Answer

abbrev is_panic : Answer → Bool
is_panic taken = false
is_panic dropped = false
is_panic refused = false
is_panic closed = false
is_panic may_panic = true
is_panic panics = true

-- A call of the logger of a number: 0 is the first one, and each derived one has its own.
pub data Call {ℓ} (R : Type ℓ) : Type ℓ where
  handle : ℕ → R → Call R
  close : ℕ → Call R

-- The shared channel, and the flags.
pub record Family {ℓ} (R : Type ℓ) : Type ℓ where
  pub capacity : ℕ
  pub ch : List R
  pub shut : Bool
  pub is_closed : ℕ → Bool

module _ {ℓ} {R : Type ℓ} where
  -- `NewAsyncLogger`, with the zero flags of whatever is derived from it.
  unfoldable pub new_family : ℕ → Family R
  new_family capacity = record {
    capacity = capacity;
    ch = [];
    shut = false;
    is_closed = λ i. false;
  }

  -- `Handle` of the logger `i`.
  unfoldable pub handle_of : ℕ → R → Family R → Family R × Answer
  handle_of i r s =
      if s.is_closed i
      then (s, refused)
      else if s.shut
      then (s, may_panic)
      else if ltb (length s.ch) s.capacity
      then (record s { ch = s.ch ++ r ∷ [] }, taken)
      else (s, dropped)

  -- `Close` of the logger `i`: its flag is set before it closes the channel.
  unfoldable pub close_of : ℕ → Family R → Family R × Answer
  close_of i s =
      if s.is_closed i
      then (s, closed)
      else if s.shut
      then (record s { is_closed = λ j. if j == i then true else s.is_closed j }, panics)
      else (
        record s { shut = true; is_closed = λ j. if j == i then true else s.is_closed j },
        closed,
      )

  unfoldable pub call_of : Call R → Family R → Family R × Answer
  unfolding handle_of close_of
  call_of (handle i r) s = handle_of i r s
  call_of (close i) s = close_of i s

  -- Some call panics, or may.
  unfoldable pub panics_in : List (Call R) → Family R → Bool
  unfolding call_of
  panics_in [] s = false
  panics_in (c ∷ cs) s =
      let (s', a) = call_of c s in let later = panics_in cs s' in if is_panic a then true else later

-- Once a logger is closed, another one of the family is called, whether to log or to close.
unfoldable pub used_by_other {ℓ} : {R : Type ℓ} → Option ℕ → List (Call R) → Bool
used_by_other first [] = false
used_by_other none (handle i r ∷ cs) = used_by_other none cs
used_by_other none (close i ∷ cs) = used_by_other (some i) cs
used_by_other (some k) (handle i r ∷ cs) =
    let later = used_by_other (some k) cs in if i == k then later else true
used_by_other (some k) (close i ∷ cs) =
    let later = used_by_other (some k) cs in if i == k then later else true

only_flag : (i j : ℕ) {b : Bool} → b ≡ false → (if j == i then true else b) ≡ (j == i)
only_flag i j e = elim (Bool-cases (j == i)) [ inl t ↦ rw (t) refl | inr t ↦ rw (t) e ]

module _ {ℓ} {R : Type ℓ} where
  -- The logger that was closed, if one was, is the only one with its flag set.
  abbrev OnlyClosed : Option ℕ → Family R → Type 0
  OnlyClosed none s = (s.shut ≡ false) × ((j : ℕ) → s.is_closed j ≡ false)
  OnlyClosed (some k) s = (s.shut ≡ true) × ((j : ℕ) → s.is_closed j ≡ (j == k))

  panics_in-other :
      (first : Option ℕ) (cs : List (Call R)) (s : Family R)
      → OnlyClosed first s
      → panics_in cs s ≡ used_by_other first cs
  unfolding panics_in used_by_other
  panics_in-other first [] s h = refl
  panics_in-other none (handle i r ∷ cs) s (o, f) =
      elim (Bool-cases (ltb (length s.ch) s.capacity)) [
        | inl e ↦
            simp (f i, o, e)
              (panics_in-other none cs (record s { ch = s.ch ++ r ∷ []; shut = false }) (refl, f))
        | inr e ↦ simp (f i, o, e) (panics_in-other none cs s (o, f))
      ]
  panics_in-other none (close i ∷ cs) s (o, f) =
      simp (f i, o)
        (panics_in-other (some i) cs
          (record s { shut = true; is_closed = λ j. if j == i then true else s.is_closed j })
          (refl, λ j. only_flag i j (f j)))
  panics_in-other (some k) (handle i r ∷ cs) s (o, f) = elim (Bool-cases (i == k)) [
    | inl e ↦ simp (f i, o, e) (panics_in-other (some k) cs s (o, f))
    | inr e ↦ simp (f i, o, e)
  ]
  panics_in-other (some k) (close i ∷ cs) s (o, f) = elim (Bool-cases (i == k)) [
    | inl e ↦ simp (f i, o, e) (panics_in-other (some k) cs s (o, f))
    | inr e ↦ simp (f i, o, e)
  ]

  -- A call of a new logger or of one that is derived from it panics, or may, exactly if it comes behind the
  -- `Close` of another of them: a single logger never does.
  pub panics_in-used_by_other :
      (capacity : ℕ) (calls : List (Call R))
      → panics_in calls (new_family capacity) ≡ used_by_other none calls
  unfolding new_family
  panics_in-used_by_other capacity calls =
      panics_in-other none calls (new_family capacity) (refl, λ j. refl)
