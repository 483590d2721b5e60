-- ===== src/Cache/Laws.antt =====
-- One shard of the cache: its LRU cache holds nothing that its map does not hold.
use xlorm.Common.{◌≡◌, refl, sym, ◌∙◌, Option, some, arith, Option-cases, inl, inr}
use xlorm.Text.{Text}
use xlorm.Text.Laws.{eq_text→eq}
use xlorm.Dict.{lookup, lookup-insert, lookup-erase}
use xlorm.Cache.{
  Lru, IsSound, Entry, Shard, new_shard, get_shard, set_shard, delete_shard, clear_shard,
}

module _ {L : Lru} where
  open L use {get_lru}

  pub record IsCoherent (s : Shard L) : Type 0 where
    pub coherent : (k : Text) (w : Entry) → (get_lru k s.lru).1 ≡ some w → lookup k s.m ≡ some w

  module _ (sound : IsSound L) where
    open sound use {get-new, get-get, get-add, get-remove}

    pub new_shard-IsCoherent : IsCoherent new_shard
    new_shard-IsCoherent = record { coherent = λ k w e. ground (arith, get-new k) }

    pub clear_shard-IsCoherent : (s : Shard L) → IsCoherent (clear_shard s)
    unfolding clear_shard
    clear_shard-IsCoherent s = record { coherent = λ k w e. ground (arith, get-new k) }

    pub set_shard-IsCoherent :
        (key : Text) (value : Entry) (s : Shard L)
        → IsCoherent s
        → IsCoherent (set_shard key value s)
    unfolding set_shard
    set_shard-IsCoherent key value s h = record {
      coherent = λ k w e.
          ground
            (arith, get-add k key value w s.lru e, h.coherent k w, lookup-insert k key value s.m);
    }

    pub delete_shard-IsCoherent :
        (key : Text) (s : Shard L) → IsCoherent s → IsCoherent (delete_shard key s)
    unfolding delete_shard
    delete_shard-IsCoherent key s h = record {
      coherent = λ k w e.
          ground (arith, get-remove k key w s.lru e, h.coherent k w, lookup-erase k key s.m);
    }

    -- A `Get` answers what the map of the shard holds, changes no map, and keeps the shard coherent.
    pub record Reads (key : Text) (s : Shard L) (after : Shard L) (answer : Option Entry)
        : Type 0 where
      pub answers : answer ≡ lookup key s.m
      pub same_map : after.m ≡ s.m
      pub still : IsCoherent after

    pub get_shard-Reads :
        (key : Text) (s : Shard L)
        → IsCoherent s
        → Reads key s (get_shard key s).0 (get_shard key s).1
    unfolding get_shard
    get_shard-Reads key s h = elim (Option-cases (get_lru key s.lru).1) [
      | inr (v, e) ↦
          rw (e, get_shard)
            (record {
              answers = sym (h.coherent key v e);
              same_map = refl;
              still = record { coherent = λ k w f. h.coherent k w (sym (get-get k key s.lru) ∙ f) };
            })
      | inl e ↦ elim (Option-cases (lookup key s.m)) [
        | inr (v, e') ↦
            rw (e, e', get_shard)
              (record {
                answers = sym e';
                same_map = refl;
                still = record {
                  coherent = λ k w f. ground (
                    arith,
                    get-add k key v w (get_lru key s.lru).0 f,
                    get-get k key s.lru,
                    h.coherent k w,
                    e',
                    eq_text→eq key k,
                  );
                };
              })
        | inl e' ↦
            rw (e, e', get_shard)
              (record {
                answers = sym e';
                same_map = refl;
                still = record {
                  coherent = λ k w f. h.coherent k w (sym (get-get k key s.lru) ∙ f);
                };
              })
      ]
    ]
