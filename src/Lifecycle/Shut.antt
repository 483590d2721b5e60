-- ===== src/Lifecycle/Shut.antt =====
-- What `Close` leaves of a handle.
use xlorm.Common.{ℕ, ◌≡◌, refl, List, [], true, false, ◌||◌, none, some, inl, inr, Bool-cases, ◌↔◌}
use xlorm.Text.{Text}
use xlorm.Metrics.Async.{work, stop}
use xlorm.Cache.{Lru, ShardedCache}
use xlorm.Cache.Refine.{Call, answers_cache, answers_dict}
use xlorm.Pool.{Pool, set_db_metrics_enable}
use xlorm.Config.{Config}
use xlorm.Lifecycle.{Database, running, is_running, joined, with_context}
use xlorm.Lifecycle.Closing.{Closing, waiting, cancel, end_collector, wait, close}

-- A cache that answers as an empty one does.
abbrev IsEmptied : {L : Lru} → (Text → ℕ) → ShardedCache L → Type 0
IsEmptied sum32 c = (calls : List Call) → answers_cache sum32 calls c ≡ answers_dict calls []

module _ {ℓ} {L : Lru} {S : Type ℓ} (sum32 : Text → ℕ) where
  -- What runs has ended, what is still to start finds the context done, and nothing is held any more.
  pub record IsShut (db : Database L S) : Type ℓ where
    pub is_closed : db.closed ≡ true
    pub not_kept_alive : is_running db.keep_alive ≡ false
    pub is_done : db.pool.cancelled ≡ true
    pub no_collector : (db.pool.running ≡ false) × (db.pool.enabled ≡ false)
    pub no_stats : db.pool.stats ≡ none
    pub no_worker : work db.async_db_metrics ≡ some db.async_db_metrics
    pub fields_emptied : IsEmptied sum32 db.struct_fields_cache
    pub placeholders_emptied : IsEmptied sum32 db.placeholder_cache

module _ {ℓ} {S : Type ℓ} where
  -- A pool whose collector has ended, and which is switched off.
  abbrev off : Pool S → Pool S
  off p = set_db_metrics_enable false (end_collector (record p { cancelled = true }))

module _ {ℓ} {L : Lru} {S : Type ℓ} where
  abbrev after_wait : Database L S → Database L S
  after_wait db = record db {
    keep_alive = joined db.keep_alive;
    pool = end_collector (record db.pool { cancelled = true });
  }

module _ {ℓ} {L : Lru} {S : Type ℓ} where
  -- What holds `Close` up: behind `WithContext` with a context that is not done, it waits as long as the
  -- goroutine of `startKeepAlive` or a collector of statistics runs, and with none of them running it returns.
  pub close-waits :
      (c : Closing) (db : Database L S)
      → db.closed ≡ false
      → db.async_db_metrics.stopped ≡ false
      → ((close c (with_context false db)).1 ≡ waiting)
        ↔ ((is_running db.keep_alive || db.pool.running) ≡ true)
  unfolding with_context close cancel wait stop
  close-waits c db o r = elim (Bool-cases (is_running db.keep_alive || db.pool.running)) [
    | inl e ↦ rw (o, e) (λ w. refl, λ s. refl)
    | inr e ↦ rw (o, e, r) (λ w. absurd cc, λ s. absurd cc)
  ]
