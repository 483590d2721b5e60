-- ===== src/Lifecycle/Opened.antt =====
-- What holds of a handle from `New` on, as long as its context is not replaced.
use xlorm.Common.{
  ℕ, ◌≡◌, refl, ap, ◌∙◌, subst, [], true, false, ◌&&◌, Option, none, some, ℤ, ◌⊎◌, inl, inr,
  Bool-cases, Option-cases, arith,
}
use xlorm.Text.{Text}
use xlorm.Dict.{Dict}
use xlorm.Cache.{Lru, IsSound, Entry, ShardedCache}
use xlorm.Cache.Refine.{Call, call_cache, call_dict, Holds, call-Holds, new_sharded_cache-Holds}
use xlorm.Metrics.Async.Stops.{call-stopped, work-stopped}
use xlorm.Pool
use xlorm.Pool.{Pool, set_db_metrics_enable, tick, new_pool}
use xlorm.Config.{
  Config, ConfigError, Level, Checked, accepted, refused, prepare_config, parse_log_level,
}
use xlorm.Lifecycle.{
  Database, Server, Connection, NewResult, async_handler, connected, bad_config, open_failed,
  ping_failed, panicked, set_up, made, new, new_my_sql, buffers_fit, dsn_of, set_debug,
}
use xlorm.Lifecycle.Closing.{
  Step, Steps, here, next, pool_moves, keep_alive_starts, keep_alive_ends, metric_recorded,
  worker_runs, fields_cached, placeholder_cached, level_set, debug_set,
}

-- Statistics are there only while a collector runs.
abbrev pub IsQuiet {ℓ} : {S : Type ℓ} → Pool S → Type ℓ
IsQuiet p = (p.running && p.enabled) ≡ false → p.stats ≡ none

abbrev pub IsCached : {L : Lru} → (Text → ℕ) → ShardedCache L → Type 0
IsCached sum32 c = (d : Dict Entry) × Holds sum32 c d

pool-keeps {ℓ} :
    {S : Type ℓ} {p q : Pool S}
    → Pool.Step p q
    → p.cancelled ≡ true
    → IsQuiet p
    → (q.cancelled ≡ true) × IsQuiet q
unfolding set_db_metrics_enable tick
pool-keeps (Pool.setter_runs s true off) c h =
    let quiet = h (ap (λ r. r && s.enabled) off) in (ground (arith, c), λ i. ground (arith, quiet))
pool-keeps (Pool.setter_runs s false off) c h =
    let quiet = h (ap (λ r. r && s.enabled) off) in (ground (arith, c), λ i. ground (arith, quiet))
pool-keeps (Pool.collector_starts s n off e) c h = (c, λ i. refl)
pool-keeps (Pool.collector_ticks s stats on) c h =
    (ground (arith, c), λ i. ground (arith, i, on, h))
pool-keeps (Pool.collector_stops s on e) c h = (c, λ i. refl)
pool-keeps (Pool.collector_ends s on e) c h = (c, λ i. refl)
pool-keeps (Pool.context_ends s) c h = (refl, h)

cached :
    {L : Lru} (sum32 : Text → ℕ)
    → IsSound L
    → (c : Call) (cache : ShardedCache L) → IsCached sum32 cache
    → IsCached sum32 (call_cache sum32 c cache).0
cached sum32 sound c cache (d, h) = ((call_dict c d).0, (call-Holds sum32 sound c cache d h).1)

pub connected-injective {ℓ} :
    {L : Lru} {S : Type ℓ} {a b : Database L S} → connected a ≡ connected b → a ≡ b
connected-injective e = cc

pub Checked-cases :
    (r : Checked) → ((v : Config) × (r ≡ accepted v)) ⊎ ((e : ConfigError) × (r ≡ refused e))
Checked-cases (accepted v) = inl (v, refl)
Checked-cases (refused e) = inr (e, refl)

module _ {ℓ} {L : Lru} {S : Type ℓ} (to_lower : Text → Text) where
  -- Each outcome of `newMySQL`.
  pub my_sql_cases {κ} :
      (P : NewResult L S → Type κ) (seconds : ℤ → Text) (server : Server) (cfg : Config)
      → (server.opens (dsn_of seconds cfg) ≡ false → P open_failed)
      → (server.opens (dsn_of seconds cfg) ≡ true
          → server.pings (set_up (dsn_of seconds cfg) cfg) ≡ false
          → P ping_failed)
      → (server.opens (dsn_of seconds cfg) ≡ true
          → server.pings (set_up (dsn_of seconds cfg) cfg) ≡ true
          → buffers_fit server cfg ≡ false
          → P panicked)
      → (parse_log_level to_lower cfg.log_level ≡ none → P (bad_config ConfigError.bad_log_level))
      → ((level : Level)
          → server.opens (dsn_of seconds cfg) ≡ true
          → server.pings (set_up (dsn_of seconds cfg) cfg) ≡ true
          → buffers_fit server cfg ≡ true
          → parse_log_level to_lower cfg.log_level ≡ some level
          → P (connected (made server cfg (set_up (dsn_of seconds cfg) cfg) level)))
      → P (new_my_sql to_lower seconds server cfg)
  unfolding new_my_sql
  my_sql_cases P seconds server cfg o p n b c =
      elim (Bool-cases (server.opens (dsn_of seconds cfg))) [
        | inr eo ↦ rw (eo) (o eo)
        | inl eo ↦ elim (Bool-cases (server.pings (set_up (dsn_of seconds cfg) cfg))) [
          | inr ep ↦ rw (eo, ep) (p eo ep)
          | inl ep ↦ elim (Option-cases (parse_log_level to_lower cfg.log_level)) [
            | inl el ↦ rw (eo, ep, el) (b el)
            | inr (level, el) ↦ elim (Bool-cases (buffers_fit server cfg)) [
              | inr en ↦ rw (eo, ep, el, en) (n eo ep en)
              | inl en ↦ rw (eo, ep, el, en) (c level eo ep en el)
            ]
          ]
        ]
      ]

module _ {ℓ} {L : Lru} {S : Type ℓ} (sum32 : Text → ℕ) (to_lower : Text → Text) where
  abbrev pub IsOpened : Database L S → Type ℓ
  IsOpened db =
      (db.closed ≡ false)
      × (db.own_context ≡ true)
      × (db.handler ≡ async_handler)
      × (db.pool.cancelled ≡ true)
      × (db.async_db_metrics.stopped ≡ false)
      × IsQuiet db.pool
      × IsCached sum32 db.struct_fields_cache
      × IsCached sum32 db.placeholder_cache

  module _ (sound : IsSound L) where
    made-IsOpened :
        (server : Server) (cfg : Config) (connection : Connection) (level : Level)
        → IsOpened (made server cfg connection level)
    unfolding made new_pool
    made-IsOpened server cfg connection level = (
      refl,
      refl,
      refl,
      refl,
      refl,
      λ i. refl,
      ([], new_sharded_cache-Holds sum32 sound server.num_cpu),
      ([], new_sharded_cache-Holds sum32 sound server.num_cpu),
    )

    Step-IsOpened :
        {db db' : Database L S} → IsOpened db → Step sum32 to_lower db db' → IsOpened db'
    unfolding set_debug
    Step-IsOpened (o, own, a, c, r, q, f, p) (pool_moves st) =
        let (c', q') = pool-keeps st c q in (o, own, a, c', r, q', f, p)
    Step-IsOpened (o, own, a, c, r, q, f, p) (keep_alive_ends e x) = (o, own, a, c, r, q, f, p)
    Step-IsOpened (o, own, a, c, r, q, f, p) (keep_alive_starts e) = (o, own, a, c, r, q, f, p)
    Step-IsOpened {db} (o, own, a, c, r, q, f, p) (metric_recorded m) =
        (o, own, a, c, call-stopped m db.async_db_metrics ∙ r, q, f, p)
    Step-IsOpened {db} (o, own, a, c, r, q, f, p) (worker_runs {am} e) =
        (o, own, a, c, work-stopped db.async_db_metrics am e ∙ r, q, f, p)
    Step-IsOpened (o, own, a, c, r, q, f, p) (fields_cached call) =
        (o, own, a, c, r, q, cached sum32 sound call _ f, p)
    Step-IsOpened (o, own, a, c, r, q, f, p) (placeholder_cached call) =
        (o, own, a, c, r, q, f, cached sum32 sound call _ p)
    Step-IsOpened (o, own, a, c, r, q, f, p) (level_set text) = (o, own, a, c, r, q, f, p)
    Step-IsOpened (o, own, a, c, r, q, f, p) (debug_set debug) = (o, own, a, c, r, q, f, p)

    pub Steps-IsOpened :
        {db db' : Database L S} → IsOpened db → Steps sum32 to_lower db db' → IsOpened db'
    Steps-IsOpened h here = h
    Steps-IsOpened h (next steps step) = Step-IsOpened (Steps-IsOpened h steps) step

  module _ (sound : IsSound L) where
    pub new-IsOpened :
        (seconds : ℤ → Text) (server : Server) (cfg : Option Config) (db : Database L S)
        → new to_lower seconds server cfg ≡ connected db
        → IsOpened db
    unfolding new
    new-IsOpened seconds server cfg db = elim (Checked-cases (prepare_config to_lower cfg)) [
      | inl (v, ev) ↦
          rw (new, ev)
            (my_sql_cases to_lower (λ r. r ≡ connected db → IsOpened db) seconds server v
              (λ eo e. absurd cc) (λ eo ep e. absurd cc) (λ eo ep en e. absurd cc)
              (λ el e. absurd cc)
              (λ level eo ep en el e.
                subst IsOpened (connected-injective e)
                  (made-IsOpened sound server v (set_up (dsn_of seconds v) v) level)))
      | inr (x, ex) ↦ rw (new, ex) (λ e. absurd cc)
    ]
