-- ===== src/Handle/Caching.antt =====
-- Calls of the caller's cache.
use xlorm.Common.{ℕ, ◌≡◌, refl, true, Option, none, some}
use xlorm.Text.{Text}
use xlorm.Value.{Value}
use xlorm.Effects.{Trace}
use xlorm.Handle.{UserCache, store_result, with_cache}

-- What the caller's cache promises until an entry expires: a value that was set without an error is
-- there.
pub record IsCache (C : UserCache) : Type 0 where
  pub get-set :
      (k : Text) (v : Value) (d : ℕ) (s : C.State)
      → (C.set_user k v d s).1 ≡ true
      → (C.get_user k (C.set_user k v d s).0).1 ≡ some v

module _ {C : UserCache} (lawful : IsCache C) where
  open C use {State, get_user, set_user, delete_user}
  open lawful use {get-set}

  with_cache-hit :
      (key : Text) (expiration : ℕ) (fn : Trace → Trace × Option Value) (s : State) (past : Trace)
      (v : Value)
      → (get_user key s).1 ≡ some v
      → with_cache C key expiration fn s past ≡ ((get_user key s).0, past, some v)
  unfolding with_cache
  with_cache-hit key expiration fn s past v hit = rw (hit, with_cache) refl

  with_cache-miss :
      (key : Text) (expiration : ℕ) (fn : Trace → Trace × Option Value) (s : State) (past : Trace)
      (v : Value)
      → (get_user key s).1 ≡ none
      → (fn past).1 ≡ some v
      → (set_user key v expiration (get_user key s).0).1 ≡ true
      → with_cache C key expiration fn s past
        ≡ ((set_user key v expiration (get_user key s).0).0, (fn past).0, some v)
  unfolding with_cache store_result
  with_cache-miss key expiration fn s past v miss ok stored =
      rw (miss, with_cache, ok, store_result, stored) refl

  -- A value that the first call stored answers the second, and its function is not called: the events
  -- are those before the second call.
  pub with_cache-twice :
      (key : Text) (expiration expiration' : ℕ) (fn fn' : Trace → Trace × Option Value)
      → (s : State) (past past' : Trace) (v : Value) → (get_user key s).1 ≡ none
      → (fn past).1 ≡ some v
      → (set_user key v expiration (get_user key s).0).1 ≡ true
      → let (s', after, result) = with_cache C key expiration fn s past in
        (result ≡ some v)
        × (after ≡ (fn past).0)
        × ((with_cache C key expiration' fn' s' past').1 ≡ past')
        × ((with_cache C key expiration' fn' s' past').2 ≡ some v)
  with_cache-twice key expiration expiration' fn fn' s past past' v miss ok stored =
      let s' = (set_user key v expiration (get_user key s).0).0 in
      rw
        (
          with_cache-miss key expiration fn s past v miss ok stored,
          with_cache-hit key expiration' fn' s' past' v
              (get-set key v expiration (get_user key s).0 stored),
        )
        (refl, refl, refl, refl)
