-- ===== src/Dict/Merge.antt =====
-- A map whose entries are assigned to another one.
use xlorm.Common.{◌≡◌, refl, ◌∙◌, [], ◌∷◌, Option, none, some, Bool-cases, inl, inr, subst}
use xlorm.Text.{Text, eq_text}
use xlorm.Text.Laws.{eq_text_comm, eq_text→eq}
use xlorm.Dict.{Dict, insert, lookup, lookup-insert}

-- What is there, or else the other.
abbrev pub or_else {ℓ} : {V : Type ℓ} → Option V → Option V → Option V
or_else (some v) o = some v
or_else none o = o

module _ {ℓ} {V : Type ℓ} where
  -- `for k, v := range m { result[k] = v }`
  unfoldable pub insert_all : Dict V → Dict V → Dict V
  unfolding insert
  insert_all [] result = result
  insert_all ((k, v) ∷ m) result = insert_all m (insert k v result)

  -- No key stands twice, as in every Go map.
  unfoldable pub IsMap : Dict V → Type ℓ
  unfolding lookup
  IsMap [] = Unit
  IsMap ((k, v) ∷ m) = (lookup k m ≡ none) × IsMap m

  pub insert-IsMap : (key : Text) (value : V) (m : Dict V) → IsMap m → IsMap (insert key value m)
  unfolding insert lookup IsMap
  insert-IsMap key value [] h = (refl, _)
  insert-IsMap key value ((k, v) ∷ m) (h, hs) = elim (Bool-cases (eq_text k key)) [
    | inl e ↦ rw e (subst (λ j. lookup j m ≡ none) (eq_text→eq k key e) h, hs)
    | inr e ↦
        rw e
          (lookup-insert k key value m ∙ rw (eq_text_comm key k, e) h, insert-IsMap key value m hs)
  ]

  pub insert_all-IsMap : (m result : Dict V) → IsMap result → IsMap (insert_all m result)
  unfolding insert_all
  insert_all-IsMap [] result h = h
  insert_all-IsMap ((k, v) ∷ m) result h =
      insert_all-IsMap m (insert k v result) (insert-IsMap k v result h)

  pub lookup-insert_all :
      (key : Text) (m result : Dict V)
      → IsMap m
      → lookup key (insert_all m result) ≡ or_else (lookup key m) (lookup key result)
  unfolding insert_all lookup IsMap
  lookup-insert_all key [] result h = refl
  lookup-insert_all key ((k, v) ∷ m) result (h, hs) = elim (Bool-cases (eq_text k key)) [
    | inl e ↦
        lookup-insert_all key m (insert k v result) hs
        ∙ rw
            (lookup-insert key k v result, e, subst (λ j. lookup j m ≡ none) (eq_text→eq k key e) h)
            refl
    | inr e ↦
        lookup-insert_all key m (insert k v result) hs ∙ rw (lookup-insert key k v result, e) refl
  ]
