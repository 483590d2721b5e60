-- ===== src/Lifecycle.antt =====
-- mysql.go, and the rest of xlorm.go that holds a `DB` together: `New` with `newMySQL`, the getters, the setters,
-- and `Close`, over the recorder (Metrics), the caches (Cache) and the statistics of the pool (Pool). What the
-- server answers is the parameter `Server`, and the digits of `%v` for a number of seconds are `seconds`.
pub mod Closing
pub mod Opened
pub mod Made
pub mod Shut
mod Tests
use xlorm.Common.{
  ℕ, ◌≡◌, List, [], ◌∷◌, ◌++◌, Bool, true, false, ◌||◌, not, if◌then◌else◌, Option, none, some, ℤ,
  pos, negsuc, ◌&&◌, ltb_ℤ,
}
use xlorm.Text.{Text, codes, concat, format_int}
use xlorm.Effects.{Metric}
use xlorm.Metrics.Async.{AsyncDbMetrics, new_async_db_metrics, call, work, stop, buffer_places}
use xlorm.Cache.{Lru, ShardedCache, new_sharded_cache, clear}
use xlorm.Cache.Refine.{Call, call_cache}
use xlorm.Pool.{Pool, new_pool, set_db_metrics_enable}
use xlorm.Pool
use xlorm.Config.{
  Config, Level, ConfigError, accepted, refused, parse_log_level, prepare_config, set_log_level,
}

-- `sql.DB`, as `newMySQL` sets it up.
pub record Connection : Type 0 where
  pub dsn : Text
  pub max_open_conns : ℤ
  pub max_idle_conns : ℤ
  pub conn_max_lifetime : ℤ
  pub conn_max_idle_time : ℤ

-- The handler behind `logger`.
pub data Handler : Type 0 where
  async_handler : Handler
  file_handler : Handler
  other_handler : Handler

-- `safeTimeout`
unfoldable pub safe_timeout : (ℤ → Text) → ℤ → Text
safe_timeout seconds d = if ltb_ℤ (pos 1) d then seconds d ++ codes "s" else codes "1s"

-- The name of the data source.
unfoldable pub dsn_of : (ℤ → Text) → Config → Text
unfolding safe_timeout
dsn_of seconds cfg = concat (
    cfg.username
    ∷ codes ":"
    ∷ cfg.password
    ∷ codes "@tcp("
    ∷ cfg.host
    ∷ codes ":"
    ∷ format_int cfg.port
    ∷ codes ")/"
    ∷ cfg.database
    ∷ codes "?charset="
    ∷ cfg.charset
    ∷ codes "&parseTime=True&loc=Local&timeout="
    ∷ safe_timeout seconds cfg.conn_timeout
    ∷ codes "&readTimeout="
    ∷ safe_timeout seconds cfg.read_timeout
    ∷ codes "&writeTimeout="
    ∷ safe_timeout seconds cfg.write_timeout
    ∷ [])

-- `sql.Open` with the settings behind it.
unfoldable pub set_up : Text → Config → Connection
set_up dsn cfg = record {
  dsn = dsn;
  max_open_conns = cfg.max_open_conns;
  max_idle_conns = cfg.max_idle_conns;
  conn_max_lifetime = cfg.conn_max_lifetime;
  conn_max_idle_time = cfg.conn_max_idle_time;
}

-- What the package sql answers, the number of CPUs, and for how many places the runtime can make a channel of log
-- records and a slice of metrics: a larger one panics.
pub record Server : Type 0 where
  pub opens : Text → Bool
  pub pings : Connection → Bool
  pub num_cpu : ℤ
  pub channel_fits : ℕ → Bool
  pub ring_fits : ℕ → Bool

-- The goroutine of `startKeepAlive`: made by a `go` statement, counted by `wg.Add` and running, or ended.
pub data KeepAlive : Type 0 where
  not_started : KeepAlive
  running : KeepAlive
  ended : KeepAlive

abbrev pub is_running : KeepAlive → Bool
is_running not_started = false
is_running running = true
is_running ended = false

-- What `wg.Wait()` leaves: a goroutine that is not counted yet is not waited for.
abbrev pub joined : KeepAlive → KeepAlive
joined not_started = not_started
joined running = ended
joined ended = ended

module _ {ℓ} (L : Lru) (S : Type ℓ) where
  -- `DB`. The context is that of `newMySQL` (`own_context`) or one that `WithContext` put in its place; `cancelled`
  -- of the pool says whether it is done.
  pub record Database : Type ℓ where
    pub db_name : Text
    pub table_pre : Text
    pub connection : Connection
    pub async_db_metrics : AsyncDbMetrics
    pub struct_fields_cache : ShardedCache L
    pub placeholder_cache : ShardedCache L
    pub handler : Handler
    pub log_level : Level
    pub slow_query_threshold : ℤ
    pub pool : Pool S
    pub own_context : Bool
    pub keep_alive : KeepAlive
    pub closed : Bool
    pub debug : Bool

  pub data NewResult : Type ℓ where
    connected : Database → NewResult
    bad_config : ConfigError → NewResult
    open_failed : NewResult
    ping_failed : NewResult
    panicked : NewResult

-- Whether the buffers can be made: the channel of the logger, which must not be negative, and the ring of the
-- recorder.
abbrev pub channel_made : Server → ℤ → Bool
channel_made server (pos n) = server.channel_fits n
channel_made server (negsuc n) = false

abbrev pub buffers_fit : Server → Config → Bool
buffers_fit server cfg =
    channel_made server cfg.log_buffer_size
    && server.ring_fits (buffer_places cfg.db_metrics_buffer_size)

module _ {ℓ} {L : Lru} {S : Type ℓ} where
  -- The `DB` that `newMySQL` makes. Its context is done, since the cancel is deferred.
  unfoldable pub made : Server → Config → Connection → Level → Database L S
  unfolding new_sharded_cache new_async_db_metrics new_pool
  made server cfg connection level = record {
    db_name = cfg.db_name;
    table_pre = cfg.table_prefix;
    connection = connection;
    async_db_metrics = new_async_db_metrics cfg.db_name cfg.db_metrics_buffer_size;
    struct_fields_cache = new_sharded_cache server.num_cpu;
    placeholder_cache = new_sharded_cache server.num_cpu;
    handler = async_handler;
    log_level = level;
    slow_query_threshold = cfg.slow_query_time;
    pool = record (new_pool cfg.enable_pool_stats) { cancelled = true };
    own_context = true;
    keep_alive = not_started;
    closed = false;
    debug = cfg.debug_mode;
  }

  -- `newMySQL`; a buffer that cannot be made is a panic.
  unfoldable pub new_my_sql : (Text → Text) → (ℤ → Text) → Server → Config → NewResult L S
  unfolding dsn_of set_up made parse_log_level
  new_my_sql to_lower seconds server cfg =
      let dsn = dsn_of seconds cfg in
      let connection = set_up dsn cfg in
      if not (server.opens dsn)
      then open_failed
      else if not (server.pings connection)
      then ping_failed
      else elim (parse_log_level to_lower cfg.log_level) [
        | none ↦ bad_config ConfigError.bad_log_level
        | some level ↦
            if not (buffers_fit server cfg)
            then panicked
            else connected (made server cfg connection level)
      ]

  -- `New`
  unfoldable pub new : (Text → Text) → (ℤ → Text) → Server → Option Config → NewResult L S
  unfolding prepare_config new_my_sql
  new to_lower seconds server cfg = elim (prepare_config to_lower cfg) [
    | refused e ↦ bad_config e
    | accepted full ↦ new_my_sql to_lower seconds server full
  ]

  -- `WithContext`, with a context that is done or not.
  unfoldable pub with_context : Bool → Database L S → Database L S
  with_context done db = record db {
    own_context = false;
    pool = record db.pool { cancelled = done };
  }

  -- `SetDebug`
  unfoldable pub set_debug : Bool → Database L S → Database L S
  set_debug debug db = record db { debug = true }
