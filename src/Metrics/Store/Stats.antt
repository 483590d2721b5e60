-- ===== src/Metrics/Store/Stats.antt =====
-- What the metrics report of the calls that were made.
use xlorm.Common.{
  ℕ, suc, ◌+◌, ◌*◌, ◌≤◌, ◌<◌, wrap64, subst, ◌/◌, ◌-ℤ◌, ◌≡◌, refl, List, [], ◌∷◌, ◌++◌, true, false,
  ℤ, pos, negsuc, Option, none, some, if◌then◌else◌, is_empty, length, All, arith, Bool-cases, inl,
  inr,
}
use native.Mathlib.Omega.{div_fact, mod_fact}
use xlorm.Text.{Text, eq_text}
use xlorm.Effects.{Metric, query_duration, affected_rows, error, slow}
use xlorm.Metrics.Store.{
  Durations, DbMetrics, new_db_metrics, add_duration, record_query_duration, record_affected_rows,
  record_error, record_slow_query, apply, apply_all, QueryStats, div_len, query_stats, total_from,
}
use xlorm.Metrics.Store.Sums.{sum_of, total-sum_of}
use xlorm.Metrics.Store.Durations.{durations_of, reported, kept_type, durations_of-apply_all}

-- The quotient by a number above 0, cut off towards zero.
abbrev pub IsQuotient : ℤ → ℕ → ℤ → Type 0
IsQuotient (pos n) k q = (m : ℕ) × (q ≡ pos m) × (k * m ≤ n) × (n < k * m + k)
IsQuotient (negsuc n) k q = (m : ℕ) × (q ≡ pos 0 -ℤ pos m) × (k * m ≤ n + 1) × (n + 1 < k * m + k)

-- What is reported of some durations: nothing of none at all; else their number, their sum as an int64, and the
-- quotient of both.
abbrev pub IsSummary : List ℤ → Option QueryStats → Type 0
IsSummary durs none = is_empty durs ≡ true
IsSummary durs (some stats) =
    (is_empty durs ≡ false)
    × (stats.count ≡ length durs)
    × (stats.total_time ≡ wrap64 (sum_of durs))
    × IsQuotient stats.total_time stats.count stats.average_time

-- What a report says of a type.
unfoldable pub stats_of : Text → List (Text × QueryStats) → Option QueryStats
unfolding eq_text
stats_of query_type [] = none
stats_of query_type ((k, stats) ∷ m) =
    if eq_text k query_type then some stats else stats_of query_type m

abbrev pub SomeDurations : Text × List ℤ → Type 0
SomeDurations (k, durs) = is_empty durs ≡ false

add_duration-SomeDurations :
    (q : Text) (duration : ℤ) (m : Durations)
    → All SomeDurations m
    → All SomeDurations (add_duration q duration m)
unfolding add_duration
add_duration-SomeDurations q duration [] h = (refl, tt)
add_duration-SomeDurations q duration ((k, durs) ∷ m) (h, hs) = elim (Bool-cases (eq_text k q)) [
  | inl e ↦ rw e (longer durs, hs)
  | inr e ↦ rw e (h, add_duration-SomeDurations q duration m hs)
]
  where
    longer : (durs : List ℤ) → is_empty (durs ++ duration ∷ []) ≡ false
    longer [] = refl
    longer (d ∷ ds) = refl

apply_all-SomeDurations :
    (fs : List Metric) (m : DbMetrics)
    → All SomeDurations m.query_durations
    → All SomeDurations (apply_all fs m).query_durations
unfolding apply_all apply record_query_duration record_affected_rows record_error record_slow_query
apply_all-SomeDurations [] m h = h
apply_all-SomeDurations (query_duration q duration ∷ fs) m h =
    apply_all-SomeDurations fs (record_query_duration q duration m)
      (add_duration-SomeDurations (kept_type q) duration m.query_durations h)
apply_all-SomeDurations (affected_rows rows ∷ fs) m h =
    apply_all-SomeDurations fs (record_affected_rows rows m) h
apply_all-SomeDurations (error ∷ fs) m h = apply_all-SomeDurations fs (record_error m) h
apply_all-SomeDurations (slow ∷ fs) m h = apply_all-SomeDurations fs (record_slow_query m) h

div_suc : (a : ℤ) (k : ℕ) → (q : ℤ) × (div_len a (suc k) ≡ some q) × IsQuotient a (suc k) q
unfolding div_len
div_suc (pos n) k = (
  pos (n / suc k),
  refl,
  (
    n / suc k,
    refl,
    omega (arith, div_fact n k, mod_fact n k),
    omega (arith, div_fact n k, mod_fact n k),
  ),
)
div_suc (negsuc n) k = (
  pos 0 -ℤ pos (suc n / suc k),
  refl,
  (
    suc n / suc k,
    refl,
    omega (arith, div_fact (suc n) k, mod_fact (suc n) k),
    omega (arith, div_fact (suc n) k, mod_fact (suc n) k),
  ),
)

average_of_SomeDurations :
    (durs : List ℤ)
    → is_empty durs ≡ false
    → (a : ℤ) × (div_len (total_from (pos 0) durs) (length durs) ≡ some a)
      × IsQuotient (total_from (pos 0) durs) (length durs) a
average_of_SomeDurations [] h = absurd (ground arith)
average_of_SomeDurations (d ∷ ds) h = div_suc (total_from (pos 0) (d ∷ ds)) (length ds)

query_stats-IsSummary :
    (m : Durations)
    → All SomeDurations m
    → (stats : List (Text × QueryStats)) × (query_stats m ≡ some stats)
      × ((query_type : Text) → IsSummary (durations_of query_type m) (stats_of query_type stats))
unfolding query_stats stats_of durations_of
query_stats-IsSummary [] h = ([], refl, λ query_type. refl)
query_stats-IsSummary ((k, durs) ∷ m) (h, hs) =
    let (average, ea, quotient) = average_of_SomeDurations durs h in
    let (rest, er, ih) = query_stats-IsSummary m hs in
    let own : QueryStats = record {
      count = length durs;
      total_time = total_from (pos 0) durs;
      average_time = average;
    } in
    (
      (k, own) ∷ rest,
      rw (ea, er, query_stats) refl,
      λ query_type. elim (Bool-cases (eq_text k query_type)) [
        | inl e ↦ rw e (h, refl, total-sum_of durs, quotient)
        | inr e ↦ rw e (ih query_type)
      ],
    )

-- Whatever calls were made on new metrics, the report of `GetDBMetrics` divides by no zero. It says of each type
-- for which durations were reported their number, their sum as an int64 that wraps round, and the quotient
-- of the two, cut off towards zero; of a type without any it says nothing. An empty type counts as `unknown`.
pub get_db_metrics-reported :
    (dbname : Text) (fs : List Metric)
    → (stats : List (Text × QueryStats)) × (query_stats
          (apply_all fs (new_db_metrics dbname)).query_durations
        ≡ some stats)
      × ((query_type : Text) → IsSummary (reported query_type fs) (stats_of query_type stats))
unfolding new_db_metrics durations_of
get_db_metrics-reported dbname fs =
    let m = new_db_metrics dbname in
    let (stats, e, at) =
      query_stats-IsSummary (apply_all fs m).query_durations (apply_all-SomeDurations fs m tt) in
    (
      stats,
      e,
      λ query_type.
          subst (λ durs. IsSummary durs (stats_of query_type stats))
            (durations_of-apply_all query_type fs m) (at query_type),
    )
