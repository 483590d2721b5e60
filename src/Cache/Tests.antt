-- ===== src/Cache/Tests.antt =====
-- The cache with an LRU cache of one place.
use xlorm.Common.{ℕ, ◌≡◌, refl, List, [], ◌∷◌, Option, none, some, if◌then◌else◌, map, pos, arith}
use xlorm.Text.{Text, codes, eq_text}
use xlorm.Placeholders.{placeholder_text}
use xlorm.Cache.{Lru, IsSound, Entry, new_sharded_cache}
use xlorm.Cache.Refine.{
  Call, getting, setting, deleting, clearing, answers_dict, answers_cache, answers_cache-dict,
}
use xlorm.Cache.Placeholder.{cached_placeholders, cached_placeholders-text}

abbrev one_entry : Text → Option (Text × Entry) → Option Entry
one_entry k none = none
one_entry k (some (j, v)) = if eq_text j k then some v else none

abbrev one_place : Lru
one_place = record {
  State = Option (Text × Entry);
  new_lru = none;
  get_lru = λ k s. (s, one_entry k s);
  add_lru = λ k v s. some (k, v);
  remove_lru = λ k s. none;
}

only_added :
    (j k : Text) (v w : Entry) (s : Option (Text × Entry))
    → (if eq_text k j then some v else none) ≡ some w
    → (if eq_text k j then some v else one_entry j s) ≡ some w
only_added j k v w s e = ground (arith, e)

one_place-IsSound : IsSound one_place
one_place-IsSound = record {
  get-new = λ k. refl;
  get-get = λ j k s. refl;
  get-add = λ j k v w s e. only_added j k v w s e;
  get-remove = λ j k w s e. absurd (cc);
}

-- The number of the last byte, or 0.
abbrev last_byte : Text → ℕ
last_byte [] = 0
last_byte (c ∷ []) = c
last_byte (c ∷ d ∷ s) = last_byte (d ∷ s)

abbrev calls : List Call
calls =
    setting (codes "a") (codes "1" ∷ [])
    ∷ setting (codes "c") (codes "2" ∷ [])
    ∷ getting (codes "a")
    ∷ deleting (codes "a")
    ∷ getting (codes "a")
    ∷ getting (codes "c")
    ∷ clearing
    ∷ getting (codes "c")
    ∷ []

answers_cache-dict_example :
    answers_cache {L = one_place} last_byte calls (new_sharded_cache (pos 2))
    ≡ answers_dict calls []
answers_cache-dict_example = answers_cache-dict last_byte one_place-IsSound (pos 2) calls

abbrev counts : List ℕ
counts = 2 ∷ 12 ∷ 2 ∷ 1 ∷ []

cached_placeholders-text_example :
    cached_placeholders {L = one_place} last_byte counts (new_sharded_cache (pos 2))
    ≡ map (λ n. some (placeholder_text n)) counts
cached_placeholders-text_example =
    cached_placeholders-text last_byte one_place-IsSound (pos 2) counts (omega arith)
