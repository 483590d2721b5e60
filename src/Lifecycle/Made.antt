-- ===== src/Lifecycle/Made.antt =====
-- What `New` answers.
use xlorm.Common.{◌≡◌, true, false, some, ℤ}
use xlorm.Text.{Text}
use xlorm.Cache.{Lru}
use xlorm.Config.{Config, parse_log_level}
use xlorm.Lifecycle.{
  Database, Server, NewResult, connected, bad_config, open_failed, ping_failed, panicked, dsn_of,
  set_up, buffers_fit,
}
use xlorm.Metrics.Async.{buffer_places}

module _ {ℓ} (L : Lru) (S : Type ℓ) (to_lower : Text → Text) (seconds : ℤ → Text)
    (server : Server) where
  -- A handle with the settings of the complete configuration `full`, at a level that its text names.
  abbrev pub IsMade : Config → Database L S → Type 0
  IsMade full db =
      (db.connection ≡ record {
        dsn = dsn_of seconds full;
        max_open_conns = full.max_open_conns;
        max_idle_conns = full.max_idle_conns;
        conn_max_lifetime = full.conn_max_lifetime;
        conn_max_idle_time = full.conn_max_idle_time;
      })
      × (db.db_name ≡ full.db_name)
      × (db.table_pre ≡ full.table_prefix)
      × (db.slow_query_threshold ≡ full.slow_query_time)
      × (db.debug ≡ full.debug_mode)
      × (db.async_db_metrics.buffer.size ≡ buffer_places full.db_metrics_buffer_size)
      × (db.pool.enabled ≡ full.enable_pool_stats)
      × (parse_log_level to_lower full.log_level ≡ some db.log_level)
      × (db.closed ≡ false)

  -- What a result of `New` says of the server and of `full`, with which it tried to connect.
  abbrev pub Says : Config → NewResult L S → Type 0
  Says full (connected db) =
      (server.opens db.connection.dsn ≡ true) × (server.pings db.connection ≡ true) × IsMade full db
  Says full (bad_config e) = ⊥
  Says full open_failed = server.opens (dsn_of seconds full) ≡ false
  Says full ping_failed =
      (server.opens (dsn_of seconds full) ≡ true)
      × (server.pings (set_up (dsn_of seconds full) full) ≡ false)
  Says full panicked =
      (server.opens (dsn_of seconds full) ≡ true)
      × (server.pings (set_up (dsn_of seconds full) full) ≡ true)
      × (buffers_fit server full ≡ false)
