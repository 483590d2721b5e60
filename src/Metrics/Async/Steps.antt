-- ===== src/Metrics/Async/Steps.antt =====
-- One call and one round of the worker against the account.
use xlorm.Common.{
  ℕ, ◌+◌, ◌<◌, ◌≡◌, ◌%◌, refl, ap, ◌∙◌, sym, subst, List, [], ◌∷◌, ◌++◌, ◌⊎◌, Bool, true, false,
  some, if◌then◌else◌, length, length-append, append-nil, arith, Bool-cases, inl, inr, u64_mod,
}
use xlorm.Text.{Text}
use xlorm.Effects.{Metric}
use xlorm.Metrics.Ring.{RingBuffer, enqueue, dequeue}
use xlorm.Metrics.Ring.Refine.{Holds, push, pop, enqueue-push, dequeue-pop}
use xlorm.Metrics.Store.{DbMetrics, new_db_metrics, apply, apply_all}
use xlorm.Metrics.Async.{AsyncDbMetrics, record_metric, work}
use xlorm.Metrics.Async.Account.{Account, oldest, put, take_one, Agrees}

pub apply_all-snoc :
    (fs : List Metric) (f : Metric) (m : DbMetrics)
    → apply_all (fs ++ f ∷ []) m ≡ apply f (apply_all fs m)
unfolding apply_all
apply_all-snoc [] f m = refl
apply_all-snoc (g ∷ fs) f m = apply_all-snoc fs f (apply g m)

enqueue-size : (rb : RingBuffer Metric) (f : Metric) → (enqueue rb f).0.size ≡ rb.size
unfolding enqueue
enqueue-size rb f = ground arith

dequeue-size : (rb : RingBuffer Metric) → (dequeue rb).0.size ≡ rb.size
unfolding dequeue
dequeue-size rb = ground arith

-- A full buffer has an oldest metric.
length-oldest :
    (size : ℕ) (q : List Metric) (f : Metric)
    → 0 < size
    → (push size q f).1 ≡ false
    → length (oldest q) ≡ 1
unfolding push oldest
length-oldest size [] f h e = absurd (ground arith)
length-oldest size (g ∷ q) f h e = refl

next_drop : (k d n : ℕ) → d ≡ n % u64_mod → k ≡ n + 1 → (d + 1) % u64_mod ≡ k % u64_mod
next_drop k d n e e' = omega arith

pub if-true {ℓ} : {A : Type ℓ} (b : Bool) (x y : A) → b ≡ true → (if b then x else y) ≡ x
if-true true x y e = refl
if-true false x y e = absurd (ground arith)

pub if-false {ℓ} : {A : Type ℓ} (b : Bool) (x y : A) → b ≡ false → (if b then x else y) ≡ y
if-false true x y e = absurd (ground arith)
if-false false x y e = refl

work-stopped : (am : AsyncDbMetrics) → am.stopped ≡ true → work am ≡ some am
unfolding work
work-stopped am e = if-true _ _ _ e

List-cases : (q : List Metric) → (q ≡ []) ⊎ ((f : Metric) × (q' : List Metric) × (q ≡ f ∷ q'))
List-cases [] = inl refl
List-cases (f ∷ q) = inr (f, q, refl)

module _ (dbname : Text) (size : ℕ) where
  pub record_metric-Agrees :
      (f : Metric) (am : AsyncDbMetrics) (a : Account)
      → Agrees dbname size am a
      → Agrees dbname size (record_metric f am) (put size f a)
  unfolding record_metric put
  record_metric-Agrees f am a h = elim (Bool-cases (enqueue am.buffer f).1) [
    | inl e ↦
        rw (e, sym flag ∙ e)
          (record {
            same_size = size_kept;
            buffered = held;
            worked = h.worked;
            counted = h.counted;
            same_stop = h.same_stop;
          })
    | inr e ↦
        rw (e, sym flag ∙ e)
          (record {
            same_size = size_kept;
            buffered = held;
            worked = h.worked;
            counted =
                next_drop (length (a.lost ++ oldest a.waiting)) am.dropped_metrics (length a.lost)
                  h.counted
                  (length-append a.lost (oldest a.waiting)
                    ∙ ap (λ n. length a.lost + n) (one_lost e));
            same_stop = h.same_stop;
          })
  ]
    where
      done :
          Holds (enqueue am.buffer f).0 (push size a.waiting f).0
          × ((enqueue am.buffer f).1 ≡ (push size a.waiting f).1)
      done =
          subst
            (λ n.
              Holds (enqueue am.buffer f).0 (push n a.waiting f).0
              × ((enqueue am.buffer f).1 ≡ (push n a.waiting f).1))
            h.same_size (enqueue-push am.buffer a.waiting f h.buffered)

      held : Holds (enqueue am.buffer f).0 (push size a.waiting f).0
      held = done.0

      flag : (enqueue am.buffer f).1 ≡ (push size a.waiting f).1
      flag = done.1

      size_kept : (enqueue am.buffer f).0.size ≡ size
      size_kept = enqueue-size am.buffer f ∙ h.same_size

      one_lost : (enqueue am.buffer f).1 ≡ false → length (oldest a.waiting) ≡ 1
      one_lost e =
          length-oldest size a.waiting f (omega (arith, h.same_size, h.buffered.some_place))
            (sym flag ∙ e)

  -- A round of a worker that goes on.
  work-open :
      (am : AsyncDbMetrics) (a : Account)
      → Agrees dbname size am a
      → am.stopped ≡ false
      → (am' : AsyncDbMetrics) × (work am ≡ some am')
        × Agrees dbname size am'
            (record a { waiting = (pop a.waiting).0; applied = a.applied ++ oldest a.waiting })
  unfolding work pop oldest
  work-open am a h going = elim (List-cases a.waiting) [
    | inl e ↦ (
      record am { buffer = (dequeue am.buffer).0 },
      rw (going, taken ∙ ap (λ q. (pop q).1) e, pop) refl,
      record {
        same_size = size_kept;
        buffered = held;
        worked =
            h.worked
            ∙ ap (λ fs. apply_all fs (new_db_metrics dbname))
                (sym (append-nil a.applied) ∙ ap (λ q. a.applied ++ oldest q) (sym e));
        counted = h.counted;
        same_stop = h.same_stop;
      },
    )
    | inr (f, q, e) ↦ (
      record am { buffer = (dequeue am.buffer).0; db_metrics = apply f am.db_metrics },
      rw (going, taken ∙ ap (λ q. (pop q).1) e, pop) refl,
      record {
        same_size = size_kept;
        buffered = held;
        worked =
            ap (apply f) h.worked
            ∙ sym (apply_all-snoc a.applied f (new_db_metrics dbname))
            ∙ ap (λ q. apply_all (a.applied ++ oldest q) (new_db_metrics dbname)) (sym e);
        counted = h.counted;
        same_stop = h.same_stop;
      },
    )
  ]
    where
      held : Holds (dequeue am.buffer).0 (pop a.waiting).0
      held = (dequeue-pop am.buffer a.waiting h.buffered).0

      taken : (dequeue am.buffer).1 ≡ (pop a.waiting).1
      taken = (dequeue-pop am.buffer a.waiting h.buffered).1

      size_kept : (dequeue am.buffer).0.size ≡ size
      size_kept = dequeue-size am.buffer ∙ h.same_size

  pub work-Agrees :
      (am : AsyncDbMetrics) (a : Account)
      → Agrees dbname size am a
      → (am' : AsyncDbMetrics) × (work am ≡ some am') × Agrees dbname size am' (take_one a)
  unfolding take_one
  work-Agrees am a h = elim (Bool-cases am.stopped) [
    | inl e ↦ (
      am,
      work-stopped am e,
      subst (Agrees dbname size am) (sym (if-true _ _ _ (sym h.same_stop ∙ e))) h,
    )
    | inr e ↦
        let (am', e', h') = work-open am a h e in
        (am', e', subst (Agrees dbname size am') (sym (if-false _ _ _ (sym h.same_stop ∙ e))) h')
  ]
