-- ===== src/Metrics/Store.antt =====
-- metrics.go: `dbMetrics`. The counters are int64 that wrap round; the durations of a type stand in
-- the order of their recording.
pub mod Durations
pub mod Sums
pub mod Stats
use xlorm.Common.{
  ℕ, zero, suc, ◌/◌, List, [], ◌∷◌, ◌++◌, if◌then◌else◌, is_empty, length, Option, none, some, map,
  ℤ, pos, negsuc, ◌+ℤ◌, ◌-ℤ◌, wrap64,
}
use xlorm.Text.{Text, codes, eq_text}
use xlorm.Effects.{Metric, query_duration, affected_rows, error, slow}

abbrev pub Durations : Type 0
Durations = List (Text × List ℤ)

-- `dbMetrics`
pub record DbMetrics : Type 0 where
  pub dbname : Text
  pub query_durations : Durations
  pub affected : ℤ
  pub total_queries : ℤ
  pub slow_queries : ℤ
  pub errors : ℤ

-- `newDBMetrics`
unfoldable pub new_db_metrics : Text → DbMetrics
new_db_metrics dbname = record {
  dbname = dbname;
  query_durations = [];
  affected = pos 0;
  total_queries = pos 0;
  slow_queries = pos 0;
  errors = pos 0;
}

-- `ResetDBMetrics`
unfoldable pub reset_db_metrics : DbMetrics → DbMetrics
reset_db_metrics m = record m {
  query_durations = [];
  affected = pos 0;
  total_queries = pos 0;
  slow_queries = pos 0;
  errors = pos 0;
}

-- The load of a type, the append, and the store.
unfoldable pub add_duration : Text → ℤ → Durations → Durations
add_duration query_type duration [] = (query_type, duration ∷ []) ∷ []
add_duration query_type duration ((k, durs) ∷ m) =
    if eq_text k query_type
    then (k, durs ++ duration ∷ []) ∷ m
    else (k, durs) ∷ add_duration query_type duration m

-- `dbMetrics.RecordQueryDuration`
unfoldable pub record_query_duration : Text → ℤ → DbMetrics → DbMetrics
unfolding add_duration
record_query_duration query_type duration m = record m {
  total_queries = wrap64 (m.total_queries +ℤ pos 1);
  query_durations =
      add_duration (if is_empty query_type then codes "unknown" else query_type) duration
        m.query_durations;
}

-- `dbMetrics.RecordAffectedRows`
unfoldable pub record_affected_rows : ℤ → DbMetrics → DbMetrics
record_affected_rows rows m = record m { affected = wrap64 (m.affected +ℤ rows) }

-- `dbMetrics.RecordError`
unfoldable pub record_error : DbMetrics → DbMetrics
record_error m = record m { errors = wrap64 (m.errors +ℤ pos 1) }

-- `dbMetrics.RecordSlowQuery`
unfoldable pub record_slow_query : DbMetrics → DbMetrics
record_slow_query m = record m { slow_queries = wrap64 (m.slow_queries +ℤ pos 1) }

-- The call that a metric stands for.
unfoldable pub apply : Metric → DbMetrics → DbMetrics
unfolding record_query_duration record_affected_rows record_error record_slow_query
apply (query_duration query_type duration) m = record_query_duration query_type duration m
apply (affected_rows rows) m = record_affected_rows rows m
apply error m = record_error m
apply slow m = record_slow_query m

-- One after the other, the first of the list first.
unfoldable pub apply_all : List Metric → DbMetrics → DbMetrics
unfolding apply
apply_all [] m = m
apply_all (f ∷ fs) m = apply_all fs (apply f m)

-- `count`, `total_time` and `average_time` of a type.
pub record QueryStats : Type 0 where
  pub count : ℕ
  pub total_time : ℤ
  pub average_time : ℤ

-- The sum of int64 durations.
unfoldable pub total_from : ℤ → List ℤ → ℤ
total_from total [] = total
total_from total (d ∷ ds) = total_from (wrap64 (total +ℤ d)) ds

-- The quotient of an int64 by a length, towards zero; `none` is the panic of a division by 0.
unfoldable pub div_len : ℤ → ℕ → Option ℤ
div_len a zero = none
div_len (pos n) (suc k) = some (pos (n / suc k))
div_len (negsuc n) (suc k) = some (pos 0 -ℤ pos (suc n / suc k))

-- The loop of `GetDBMetrics` over the types; `none` is a panic.
unfoldable pub query_stats : Durations → Option (List (Text × QueryStats))
unfolding total_from div_len
query_stats [] = some []
query_stats ((k, durs) ∷ m) = elim (div_len (total_from (pos 0) durs) (length durs)) [
  | none ↦ none
  | some average ↦ elim (query_stats m) [
    | none ↦ none
    | some rest ↦ some (
        (
          k,
          record {
            count = length durs;
            total_time = total_from (pos 0) durs;
            average_time = average;
          },
        )
        ∷ rest)
  ]
]
