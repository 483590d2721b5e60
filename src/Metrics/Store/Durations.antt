-- ===== src/Metrics/Store/Durations.antt =====
-- The durations that the metrics keep of the calls that were made.
use xlorm.Common.{
  ℤ, ◌≡◌, ◌≢◌, refl, ap, ◌∙◌, sym, List, [], ◌∷◌, ◌++◌, Bool, true, false, if◌then◌else◌, is_empty,
  append_assoc, append-nil, arith, Bool-cases, inl, inr,
}
use xlorm.Text.{Text, codes, eq_text}
use xlorm.Text.Laws.{eq_text_refl, eq_text→eq}
use xlorm.Effects.{Metric, query_duration, affected_rows, error, slow}
use xlorm.Metrics.Store.{
  Durations, DbMetrics, add_duration, record_query_duration, record_affected_rows, record_error,
  record_slow_query, apply, apply_all,
}

-- The durations that are stored under a type.
unfoldable pub durations_of : Text → Durations → List ℤ
unfolding eq_text
durations_of query_type [] = []
durations_of query_type ((k, durs) ∷ m) =
    if eq_text k query_type then durs else durations_of query_type m

-- The type under which a duration is kept.
abbrev pub kept_type : Text → Text
kept_type query_type = if is_empty query_type then codes "unknown" else query_type

-- The durations that the calls report for a type, in the order of the calls.
unfoldable pub reported : Text → List Metric → List ℤ
unfolding eq_text
reported query_type [] = []
reported query_type (query_duration q duration ∷ fs) =
    if eq_text (kept_type q) query_type
    then duration ∷ reported query_type fs
    else reported query_type fs
reported query_type (affected_rows rows ∷ fs) = reported query_type fs
reported query_type (error ∷ fs) = reported query_type fs
reported query_type (slow ∷ fs) = reported query_type fs

-- Where the first pair is of the type asked for, another type is not.
off_type :
    (k q query_type : Text) → eq_text k q ≡ false → k ≡ query_type → eq_text q query_type ≡ false
off_type k q query_type other e = elim (Bool-cases (eq_text q query_type)) [
  | inl e' ↦ absurd (
      true-ne-false
        (sym (eq_text_refl q) ∙ ap (λ t. eq_text t q) (eq_text→eq q query_type e' ∙ sym e) ∙ other))
  | inr e' ↦ e'
]
  where
    true-ne-false : true ≢ false
    true-ne-false e = grind arith

-- The pairs behind the first, with the first pair's own type or another.
durations_of-tail :
    (query_type q k : Text) (durs more : List ℤ) (m m' : Durations)
    → eq_text k q ≡ false
    → durations_of query_type m'
      ≡ durations_of query_type m ++ (if eq_text q query_type then more else [])
    → (if eq_text k query_type then durs else durations_of query_type m')
      ≡ (if eq_text k query_type then durs else durations_of query_type m)
        ++ (if eq_text q query_type then more else [])
durations_of-tail query_type q k durs more m m' other ih =
    elim (Bool-cases (eq_text k query_type)) [
      | inl e ↦
          rw (e, off_type k q query_type other (eq_text→eq k query_type e)) (sym (append-nil durs))
      | inr e ↦ rw e ih
    ]

durations_of-own :
    (query_type q : Text) (durs more : List ℤ) (m : Durations)
    → (if eq_text q query_type then durs ++ more else durations_of query_type m)
      ≡ (if eq_text q query_type then durs else durations_of query_type m)
        ++ (if eq_text q query_type then more else [])
durations_of-own query_type q durs more m = ground (arith, append-nil (durations_of query_type m))

-- An append goes to the end of its own type and leaves the other types.
durations_of-add_duration :
    (query_type q : Text) (duration : ℤ) (m : Durations)
    → durations_of query_type (add_duration q duration m)
      ≡ durations_of query_type m ++ (if eq_text q query_type then duration ∷ [] else [])
unfolding durations_of add_duration
durations_of-add_duration query_type q duration [] = refl
durations_of-add_duration query_type q duration ((k, durs) ∷ m) = elim (Bool-cases (eq_text k q)) [
  | inl same ↦
      rw (same, ap (λ t. eq_text t query_type) (eq_text→eq k q same))
        (durations_of-own query_type q durs (duration ∷ []) m)
  | inr other ↦ rw other (
      durations_of-tail query_type q k durs (duration ∷ []) m (add_duration q duration m) other
        (durations_of-add_duration query_type q duration m))
]

-- After any calls, the durations of a type are those it had and those reported for it, in order.
pub durations_of-apply_all :
    (query_type : Text) (fs : List Metric) (m : DbMetrics)
    → durations_of query_type (apply_all fs m).query_durations
      ≡ durations_of query_type m.query_durations ++ reported query_type fs
unfolding apply_all apply reported record_query_duration record_affected_rows record_error
    record_slow_query
durations_of-apply_all query_type [] m =
    sym (append-nil (durations_of query_type m.query_durations))
durations_of-apply_all query_type (query_duration q duration ∷ fs) m =
    durations_of-apply_all query_type fs (record_query_duration q duration m)
    ∙ ap (λ ds. ds ++ reported query_type fs)
        (durations_of-add_duration query_type (kept_type q) duration m.query_durations)
    ∙ regroup (eq_text (kept_type q) query_type)
  where
    regroup :
        (b : Bool)
        → (durations_of query_type m.query_durations ++ (if b then duration ∷ [] else []))
            ++ reported query_type fs
          ≡ durations_of query_type m.query_durations
            ++ (if b then duration ∷ reported query_type fs else reported query_type fs)
    regroup true =
        append_assoc (durations_of query_type m.query_durations) (duration ∷ [])
          (reported query_type fs)
    regroup false =
        ap (λ ds. ds ++ reported query_type fs)
          (append-nil (durations_of query_type m.query_durations))
durations_of-apply_all query_type (affected_rows rows ∷ fs) m =
    durations_of-apply_all query_type fs (record_affected_rows rows m)
durations_of-apply_all query_type (error ∷ fs) m =
    durations_of-apply_all query_type fs (record_error m)
durations_of-apply_all query_type (slow ∷ fs) m =
    durations_of-apply_all query_type fs (record_slow_query m)
