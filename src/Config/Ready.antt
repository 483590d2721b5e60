-- ===== src/Config/Ready.antt =====
-- The configurations that `New` opens a connection with.
use xlorm.Common.{◌≡◌, true, false, some, is_empty, ◌&&◌, ◌||◌, not, ltb_ℤ, pos}
use xlorm.Text.{Text, codes, eq_text}
use xlorm.Config.{Config, Level, second, is_zero, default_text, parse_log_level, with_defaults}

-- A configuration without a missing or a senseless part. Sizes and timeouts may be negative.
pub record IsReady (to_lower : Text → Text) (cfg : Config) : Type 0 where
  pub has_host : is_empty cfg.host ≡ false
  pub has_username : is_empty cfg.username ≡ false
  pub has_database : is_empty cfg.database ≡ false
  pub port_in_range : (ltb_ℤ (pos 0) cfg.port ≡ true) × (ltb_ℤ (pos 65535) cfg.port ≡ false)
  pub log_level_known : (l : Level) × (parse_log_level to_lower cfg.log_level ≡ some l)
  pub is_mysql : cfg.driver ≡ codes "mysql"
  pub texts_set :
      (is_empty cfg.db_name ≡ false)
      × (is_empty cfg.charset ≡ false)
      × (is_empty cfg.log_dir ≡ false)
  pub pool_set :
      (is_zero cfg.max_open_conns ≡ false)
      × (is_zero cfg.max_idle_conns ≡ false)
      × (is_zero cfg.conn_max_lifetime ≡ false)
      × (is_zero cfg.conn_max_idle_time ≡ false)
  pub timeouts_set :
      (is_zero cfg.conn_timeout ≡ false)
      × (is_zero cfg.read_timeout ≡ false)
      × (is_zero cfg.write_timeout ≡ false)
      × (is_zero cfg.slow_query_time ≡ false)
  pub buffers_set :
      (is_zero cfg.db_metrics_buffer_size ≡ false) × (is_zero cfg.log_buffer_size ≡ false)
  pub age_positive : ltb_ℤ (pos 0) cfg.log_rotation_max_age ≡ true
  pub interval_set : (cfg.enable_pool_stats && ltb_ℤ cfg.pool_stats_interval (pos second)) ≡ false

module _ (to_lower : Text → Text) where
  abbrev levelled : Config → Config
  levelled cfg = record cfg { log_level = default_text (codes "debug") cfg.log_level }

  -- What an accepted configuration has passed.
  record Passed (cfg v : Config) : Type 0 where
    host : is_empty cfg.host ≡ false
    port : (not (ltb_ℤ (pos 0) cfg.port) || ltb_ℤ (pos 65535) cfg.port) ≡ false
    username : is_empty cfg.username ≡ false
    database : is_empty cfg.database ≡ false
    level : (l : Level) × (parse_log_level to_lower (levelled cfg).log_level ≡ some l)
    result : v ≡ levelled cfg

  -- The steps of an accepted configuration.
  record Prepared (cfg out : Config) : Type 0 where
    passed : Passed cfg (levelled cfg)
    driver : eq_text (with_defaults to_lower (levelled cfg)).driver (codes "mysql") ≡ true
    result : out ≡ with_defaults to_lower (levelled cfg)
