-- ===== src/Condition/Laws.antt =====
-- The WHERE text: what it is made of, and how many placeholders it has.
use Prim.Native.Nat.{bit_or}
use mathlib.Core.List.{cons-ne-nil, append_assoc}
use xlorm.Common.{
  ◌≢◌, ℕ, zero, suc, ◌<◌, true, [], ◌+◌, ◌≡◌, refl, ◌∙◌, ap, List, ◌∷◌, ◌++◌, Bool, false,
  if◌then◌else◌, arith, All, append-nil, inl, inr, Bool-cases,
}
use xlorm.Text.{Text, codes, count, join, contains_any}
use xlorm.Text.Laws.{counts, count-join, Lacks, append-Lacks, join-Lacks, count-append}
use xlorm.Condition.{cond_or, cond_not, has_flag, write_conditions, where_text}

-- Behind the first condition the loop writes the separator before each.
write_behind :
    (sep : Text) (i : ℕ) (c : Text) (cs : List Text)
    → 0 < i
    → write_conditions sep i (c ∷ cs) ≡ sep ++ join (c ∷ cs) sep
unfolding write_conditions join
write_behind sep i c [] h = ground (arith, append-nil c)
write_behind sep i c (d ∷ cs) h = ground (arith, write_behind sep (i + 1) d cs (omega arith))

-- The loop over the conditions joins them.
pub write_conditions-join : (sep : Text) (cs : List Text) → write_conditions sep 0 cs ≡ join cs sep
unfolding write_conditions join
write_conditions-join sep [] = refl
write_conditions-join sep (c ∷ []) = append-nil c
write_conditions-join sep (c ∷ d ∷ cs) = ap (◌++◌ c) (write_behind sep 1 d cs (omega arith))

-- The characters of the keywords that the clause adds.
abbrev pub keyword_chars : Text
keyword_chars = codes " WHEROAND()"

module _ (chars : Text) (plain : Lacks chars keyword_chars) where
  pre-Lacks : (pre : Bool) → Lacks chars (if pre then codes " WHERE " else [])
  unfolding codes contains_any
  pre-Lacks pre = ground arith

  or-Lacks : Lacks chars (codes " OR ")
  unfolding codes contains_any
  or-Lacks = ground arith

  and-Lacks : Lacks chars (codes " AND ")
  unfolding codes contains_any
  and-Lacks = ground arith

  bracket-Lacks : (t : Text) → Lacks chars t → Lacks chars (codes "(" ++ (t ++ codes ")"))
  unfolding codes contains_any
  bracket-Lacks t h = ground (arith, append-Lacks chars t (b')' ∷ []) h)

  -- The clause holds a character outside the keywords only if a condition holds it.
  pub where_text-Lacks :
      (pre : Bool) (flags : ℕ) (ts : List Text)
      → All (Lacks chars) ts
      → Lacks chars (where_text pre flags ts)
  unfolding where_text
  where_text-Lacks pre flags ts h =
      append-Lacks chars _ _ (pre-Lacks pre) (elim (Bool-cases (has_flag flags cond_or)) [
        | inl o ↦ rw (o, write_conditions-join) (bracket-Lacks _ (join-Lacks chars ts _ or-Lacks h))
        | inr o ↦ elim (Bool-cases (has_flag flags cond_not)) [
          | inl n ↦
              rw (o, n, write_conditions-join) (bracket-Lacks _ (join-Lacks chars ts _ and-Lacks h))
          | inr n ↦ rw (o, n) (join-Lacks chars ts _ and-Lacks h)
        ]
      ])

count-bracket : (t : Text) → count (codes "(" ++ (t ++ codes ")")) b'?' ≡ count t b'?'
unfolding codes count
count-bracket t = omega (arith, count-append t (b')' ∷ []) b'?')

count-pre :
    (pre : Bool) (t : Text) → count ((if pre then codes " WHERE " else []) ++ t) b'?' ≡ count t b'?'
unfolding codes count
count-pre true t = refl
count-pre false t = refl

count-or : (ts : List Text) → count (join ts (codes " OR ")) b'?' ≡ counts ts b'?'
unfolding codes count
count-or ts = count-join ts _ b'?' refl

count-and : (ts : List Text) → count (join ts (codes " AND ")) b'?' ≡ counts ts b'?'
unfolding codes count
count-and ts = count-join ts _ b'?' refl

-- The clause has exactly the question marks of its conditions, whatever the flags.
pub count-where_text :
    (pre : Bool) (flags : ℕ) (ts : List Text)
    → count (where_text pre flags ts) b'?' ≡ counts ts b'?'
unfolding where_text
count-where_text pre flags ts = count-pre pre _ ∙ (elim (Bool-cases (has_flag flags cond_or)) [
  | inl o ↦ rw (o, write_conditions-join) (count-bracket _ ∙ count-or ts)
  | inr o ↦ elim (Bool-cases (has_flag flags cond_not)) [
    | inl n ↦ rw (o, n, write_conditions-join) (count-bracket _ ∙ count-and ts)
    | inr n ↦ rw (o, n) (count-and ts)
  ]
])

-- Setting the flag of OR is seen by the test of it; the flags in use are below 8.
pub has_flag-or : (flags : ℕ) → flags < 8 → has_flag (bit_or flags cond_or) cond_or ≡ true
has_flag-or zero h = refl
has_flag-or (suc zero) h = refl
has_flag-or (suc (suc zero)) h = refl
has_flag-or (suc (suc (suc zero))) h = refl
has_flag-or (suc (suc (suc (suc zero)))) h = refl
has_flag-or (suc (suc (suc (suc (suc zero))))) h = refl
has_flag-or (suc (suc (suc (suc (suc (suc zero)))))) h = refl
has_flag-or (suc (suc (suc (suc (suc (suc (suc zero))))))) h = refl
has_flag-or (suc (suc (suc (suc (suc (suc (suc (suc n)))))))) h = absurd (omega arith)

pub join-snoc :
    (ts : List Text) (t sep : Text) → ts ≢ [] → join (ts ++ t ∷ []) sep ≡ join ts sep ++ (sep ++ t)
unfolding join
join-snoc [] t sep h = absurd (h refl)
join-snoc (x ∷ []) t sep h = refl
join-snoc (x ∷ y ∷ ts) t sep h = simp (join-snoc (y ∷ ts) t sep (cons-ne-nil y ts), append_assoc)
