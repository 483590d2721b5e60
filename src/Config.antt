-- ===== src/Config.antt =====
-- config.go and `New` of xlorm.go: the checks of a configuration, its defaults, and the log levels of logger.go
-- and utils.go. `strings.ToLower` is the parameter `to_lower`; the connection that `New` then opens is I/O.
pub mod Levels
pub mod Ready
mod Tests
use xlorm.Common.{
  ℕ, zero, suc, ltb, ◌+◌, ◌*◌, ◌≡◌, ◌<◌, List, [], ◌∷◌, Bool, true, false, ◌&&◌, ◌||◌, not,
  if◌then◌else◌, Option, none, some, ℤ, pos, negsuc, ltb_ℤ, leb, is_empty, map, All,
}
use xlorm.Text.{Text, codes, eq_text}
use xlorm.Dict.{Dict, lookup}

-- `Config`; a duration is its number of nanoseconds.
pub record Config : Type 0 where
  pub db_name : Text
  pub driver : Text
  pub host : Text
  pub username : Text
  pub password : Text
  pub database : Text
  pub charset : Text
  pub table_prefix : Text
  pub log_dir : Text
  pub log_level : Text
  pub conn_max_lifetime : ℤ
  pub conn_max_idle_time : ℤ
  pub conn_timeout : ℤ
  pub read_timeout : ℤ
  pub write_timeout : ℤ
  pub slow_query_time : ℤ
  pub pool_stats_interval : ℤ
  pub port : ℤ
  pub log_buffer_size : ℤ
  pub max_open_conns : ℤ
  pub max_idle_conns : ℤ
  pub log_rotation_max_age : ℤ
  pub db_metrics_buffer_size : ℤ
  pub log_rotation_enabled : Bool
  pub enable_pool_stats : Bool
  pub debug_mode : Bool

pub data Level : Type 0 where
  level_debug : Level
  level_info : Level
  level_warn : Level
  level_error : Level

-- What is wrong with a configuration.
pub data ConfigError : Type 0 where
  nil_config : ConfigError
  no_host : ConfigError
  bad_port : ConfigError
  no_username : ConfigError
  no_database : ConfigError
  bad_log_level : ConfigError
  unknown_driver : ConfigError

pub data Checked : Type 0 where
  accepted : Config → Checked
  refused : ConfigError → Checked

-- `logLevelMap`
abbrev pub log_level_map : Dict Level
log_level_map =
    (codes "debug", level_debug)
    ∷ (codes "info", level_info)
    ∷ (codes "warn", level_warn)
    ∷ (codes "error", level_error)
    ∷ []

abbrev pub lower_byte : ℕ → ℕ
lower_byte c = if leb b'A' c && leb c b'Z' then c + 32 else c

abbrev is_ascii : Text → Bool
is_ascii [] = true
is_ascii (c ∷ s) = ltb c 128 && is_ascii s

-- What is relied on of `strings.ToLower`: in an ASCII text it changes the capital letters.
abbrev pub LowersAscii : (Text → Text) → Type 0
LowersAscii to_lower = (s : Text) → is_ascii s ≡ true → to_lower s ≡ map lower_byte s

abbrev is_zero : ℤ → Bool
is_zero (pos zero) = true
is_zero (pos (suc n)) = false
is_zero (negsuc n) = false

-- A number or a text with its default.
abbrev default_int : ℤ → ℤ → ℤ
default_int d n = if is_zero n then d else n

abbrev default_text : Text → Text → Text
default_text d s = if is_empty s then d else s

abbrev pub second : ℕ
second = 1000000000

module _ (to_lower : Text → Text) where
  -- `parseLogLevel`
  unfoldable pub parse_log_level : Text → Option Level
  unfolding lookup
  parse_log_level level = if is_empty level then none else lookup (to_lower level) log_level_map

  -- `Validate`, with the level that it fills in.
  unfoldable pub validate : Option Config → Checked
  unfolding parse_log_level
  validate none = refused nil_config
  validate (some cfg) =
      let levelled = record cfg { log_level = default_text (codes "debug") cfg.log_level } in
      if is_empty cfg.host
      then refused no_host
      else if not (ltb_ℤ (pos 0) cfg.port) || ltb_ℤ (pos 65535) cfg.port
      then refused bad_port
      else if is_empty cfg.username
      then refused no_username
      else if is_empty cfg.database
      then refused no_database
      else elim (parse_log_level levelled.log_level) [
        | none ↦ refused bad_log_level
        | some l ↦ accepted levelled
      ]

  -- The defaults that `New` fills in.
  unfoldable pub with_defaults : Config → Config
  with_defaults cfg = record cfg {
    db_name = default_text (codes "master") cfg.db_name;
    driver = (if is_empty cfg.driver then codes "mysql" else to_lower cfg.driver);
    charset = default_text (codes "utf8mb4") cfg.charset;
    max_open_conns = default_int (pos 10) cfg.max_open_conns;
    max_idle_conns = default_int (pos 5) cfg.max_idle_conns;
    conn_max_lifetime = default_int (pos (3600 * second)) cfg.conn_max_lifetime;
    conn_max_idle_time = default_int (pos (1800 * second)) cfg.conn_max_idle_time;
    conn_timeout = default_int (pos second) cfg.conn_timeout;
    read_timeout = default_int (pos (30 * second)) cfg.read_timeout;
    write_timeout = default_int (pos (30 * second)) cfg.write_timeout;
    slow_query_time = default_int (pos second) cfg.slow_query_time;
    pool_stats_interval =
        (if cfg.enable_pool_stats && ltb_ℤ cfg.pool_stats_interval (pos second)
          then pos (60 * second)
          else cfg.pool_stats_interval);
    db_metrics_buffer_size = default_int (pos 1000) cfg.db_metrics_buffer_size;
    log_dir = default_text (codes "./logs") cfg.log_dir;
    log_rotation_max_age =
        (if ltb_ℤ (pos 0) cfg.log_rotation_max_age then cfg.log_rotation_max_age else pos 30);
    log_buffer_size = default_int (pos 5000) cfg.log_buffer_size;
  }

  -- What `New` does before it opens the connection with the accepted configuration.
  unfoldable pub prepare_config : Option Config → Checked
  unfolding validate with_defaults
  prepare_config cfg = elim (validate cfg) [
    | refused e ↦ refused e
    | accepted valid ↦
        let full = with_defaults valid in
        if eq_text full.driver (codes "mysql") then accepted full else refused unknown_driver
  ]

  -- `SetLogLevel`: the level afterwards, and whether the text was accepted.
  unfoldable pub set_log_level : Text → Level → Level × Bool
  unfolding parse_log_level
  set_log_level text level = elim (parse_log_level text) [
    | none ↦ (level, false)
    | some l ↦ (l, true)
  ]

  -- `Level.String()`
  abbrev level_string : Level → Text
  level_string level_debug = codes "DEBUG"
  level_string level_info = codes "INFO"
  level_string level_warn = codes "WARN"
  level_string level_error = codes "ERROR"

  -- `GetLogLevel`
  unfoldable pub get_log_level : Level → Text
  get_log_level level = to_lower (level_string level)
