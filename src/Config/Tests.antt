-- ===== src/Config/Tests.antt =====
-- A configuration that is completed, and the levels, where only ASCII capitals have a lower case.
use xlorm.Common.{◌≡◌, refl, [], true, false, some, pos, map}
use xlorm.Text.{Text, codes}
use xlorm.Config.{Config, refused, bad_port, lower_byte, with_defaults, prepare_config}

abbrev lower_ascii : Text → Text
lower_ascii s = map lower_byte s

abbrev unset : Config
unset = record {
  db_name = [];
  driver = codes "MySQL";
  host = codes "localhost";
  username = codes "root";
  password = [];
  database = codes "shop";
  charset = [];
  table_prefix = [];
  log_dir = [];
  log_level = [];
  conn_max_lifetime = pos 0;
  conn_max_idle_time = pos 0;
  conn_timeout = pos 0;
  read_timeout = pos 0;
  write_timeout = pos 0;
  slow_query_time = pos 0;
  pool_stats_interval = pos 0;
  port = pos 3306;
  log_buffer_size = pos 0;
  max_open_conns = pos 0;
  max_idle_conns = pos 0;
  log_rotation_max_age = pos 0;
  db_metrics_buffer_size = pos 0;
  log_rotation_enabled = false;
  enable_pool_stats = true;
  debug_mode = false;
}

abbrev completed : Config
completed = with_defaults lower_ascii (record unset { log_level = codes "debug" })

port_refused :
    prepare_config lower_ascii (some (record unset { port = pos 65536 })) ≡ refused bad_port
unfolding prepare_config codes
port_refused = refl
