-- ===== src/Dict.antt =====
-- Go maps with text keys, as association lists: an assignment keeps the place of a key that is there.
pub mod Merge
use xlorm.Common.{
  ◌≡◌, refl, List, [], ◌∷◌, Option, none, some, if◌then◌else◌, arith, Bool-cases, inl, inr,
}
use xlorm.Text.{Text, eq_text}
use xlorm.Text.Laws.{eq_text-same, eq_text-apart}

abbrev pub Dict {ℓ} : Type ℓ → Type ℓ
Dict V = List (Text × V)

module _ {ℓ} {V : Type ℓ} where
  -- `m[key] = value`
  unfoldable pub insert : Text → V → Dict V → Dict V
  insert key value [] = (key, value) ∷ []
  insert key value ((k, v) ∷ m) =
      if eq_text k key then (key, value) ∷ m else (k, v) ∷ insert key value m

  -- `v, ok := m[key]`
  unfoldable pub lookup : Text → Dict V → Option V
  lookup key [] = none
  lookup key ((k, v) ∷ m) = if eq_text k key then some v else lookup key m

  -- `delete(m, key)`
  unfoldable pub erase : Text → Dict V → Dict V
  erase key [] = []
  erase key ((k, v) ∷ m) = let rest = erase key m in if eq_text k key then rest else (k, v) ∷ rest

  pub lookup-insert :
      (j k : Text) (v : V) (m : Dict V)
      → lookup j (insert k v m) ≡ (if eq_text k j then some v else lookup j m)
  unfolding lookup insert
  lookup-insert j k v [] = refl
  lookup-insert j k v ((i, w) ∷ m) = elim (Bool-cases (eq_text i k)) [
    | inl e ↦ rw (e, eq_text-same i k j e) (ground arith)
    | inr e ↦ elim (Bool-cases (eq_text i j)) [
      | inl f ↦ rw (e, f, eq_text-apart i k j e f) refl
      | inr f ↦ rw (e, f) (lookup-insert j k v m)
    ]
  ]

  pub lookup-erase :
      (j k : Text) (m : Dict V) → lookup j (erase k m) ≡ (if eq_text k j then none else lookup j m)
  unfolding lookup erase
  lookup-erase j k [] = ground arith
  lookup-erase j k ((i, w) ∷ m) = elim (Bool-cases (eq_text i k)) [
    | inl e ↦ rw (e, eq_text-same i k j e) (ground (arith, lookup-erase j k m))
    | inr e ↦ elim (Bool-cases (eq_text i j)) [
      | inl f ↦ rw (e, f, eq_text-apart i k j e f) refl
      | inr f ↦ rw (e, f) (lookup-erase j k m)
    ]
  ]
