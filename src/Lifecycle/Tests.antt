-- ===== src/Lifecycle/Tests.antt =====
-- A handle that is opened, used and closed; its caches evict at once.
use xlorm.Common.{ℕ, ◌≡◌, refl, [], true, false, none, ℤ, pos, map}
use xlorm.Text.{Text, codes, concat, format_int}
use xlorm.Effects.{error}
use xlorm.Metrics.Async.{call}
use xlorm.Cache.{Lru}
use xlorm.Config.{level_info, Config, lower_byte}
use xlorm.Lifecycle.{Database, Server, made, set_up, dsn_of}
use xlorm.Lifecycle.Closing.{Closing}

abbrev no_place : Lru
no_place = record {
  State = Unit {0};
  new_lru = tt;
  get_lru = λ k s. (s, none);
  add_lru = λ k v s. s;
  remove_lru = λ k s. s;
}

abbrev lower_ascii : Text → Text
lower_ascii s = map lower_byte s

abbrev full : Config
full = record {
  db_name = codes "master";
  driver = codes "mysql";
  host = codes "h";
  username = codes "u";
  password = codes "p";
  database = codes "d";
  charset = codes "utf8mb4";
  table_prefix = [];
  log_dir = codes "l";
  log_level = codes "info";
  conn_max_lifetime = pos 1;
  conn_max_idle_time = pos 1;
  conn_timeout = pos 1;
  read_timeout = pos 2;
  write_timeout = pos 2;
  slow_query_time = pos 1;
  pool_stats_interval = pos 1;
  port = pos 33;
  log_buffer_size = pos 1;
  max_open_conns = pos 1;
  max_idle_conns = pos 1;
  log_rotation_max_age = pos 1;
  db_metrics_buffer_size = pos 1;
  log_rotation_enabled = false;
  enable_pool_stats = false;
  debug_mode = false;
}

abbrev seconds : ℤ → Text
seconds d = codes "2"

abbrev server : Server
server = record {
  opens = λ dsn. true;
  pings = λ c. true;
  num_cpu = pos 1;
  channel_fits = λ n. true;
  ring_fits = λ n. true;
}

dsn_text :
    dsn_of seconds full
    ≡ codes
        "u:p@tcp(h:33)/d?charset=utf8mb4&parseTime=True&loc=Local&timeout=1s&readTimeout=2s&writeTimeout=2s"
unfolding dsn_of codes concat format_int
dsn_text = refl

abbrev opened : Database no_place ℕ
opened = made server full (set_up (dsn_of seconds full) full) level_info

abbrev zero_hash : Text → ℕ
zero_hash key = 0

abbrev used : Database no_place ℕ
used = record opened { async_db_metrics = call error opened.async_db_metrics; debug = true }

abbrev failing : Closing
failing = record { connection_closes = false; handler_closes = true }
