-- ===== src/TablePool/Isolation.antt =====
-- Callers that release each table once never share one.
use mathlib.Core.List.{
  Mem, Perm, Nodup, Nodup-cons, Nodup-nil, not-mem-nil, mem-cons, mem-cons_of_mem, mem-append_left,
  perm_middle, Mem-prop,
}
use mathlib.Core.List.Perm
use mathlib.Core.Logic.Or
use xlorm.Common.{
  ℕ, ◌<◌, ◌≡◌, ◌≢◌, refl, sym, ap, ◌∙◌, subst, List, ◌∷◌, ◌++◌, Option, some, ◌==◌, ==_iff,
  Bool-cases, inl, inr, arith,
}
use native.Mathlib.Bridge.{le_prop}
use xlorm.Table.{Table}
use xlorm.TablePool.{
  Objects, Heap, store, Step, reuse, make, change, give_back, drop, Reach, start, then, Others,
  nothing, and_then,
}

abbrev owned : Heap → List ℕ
owned s = s.held ++ s.free

-- No address stands twice among the held and the free ones, and all of them are used.
abbrev Distinct : List ℕ → ℕ → Type 0
Distinct xs n = Nodup xs × ((x : ℕ) → Mem x xs → x < n)

abbrev Well : Heap → Type 0
Well s = Distinct (owned s) s.next

take_free :
    (held : List ℕ) {free rest : List ℕ} {r : ℕ}
    → Perm free (r ∷ rest)
    → Perm (held ++ free) (r ∷ (held ++ rest))
take_free held {free} {rest} {r} p = Perm.trans (Perm.append_left held p) (perm_middle held rest)

give :
    (free : List ℕ) {held rest : List ℕ} {r : ℕ}
    → Perm held (r ∷ rest)
    → Perm (held ++ free) (rest ++ (r ∷ free))
give free {held} {rest} {r} p =
    Perm.trans (Perm.append_right free p) (Perm.symm (perm_middle rest free))

Distinct-perm : {xs ys : List ℕ} (n : ℕ) → Distinct xs n → Perm xs ys → Distinct ys n
Distinct-perm n (d, b) p = (Perm.nodup p d, λ x h. b x ((Perm.mem_iff p).1 h))

Well-step : {s s' : Heap} {who : Option ℕ} → Well s → Step s who s' → Well s'
Well-step {s} h (reuse db name r rest p) = Distinct-perm s.next h (take_free s.held p)
Well-step {s} (d, b) (make db name made) = (
  Nodup-cons.1 (λ m. omega (arith, b s.next m), d),
  λ x m. Or.elim le_prop (mem-cons.0 m) (λ e. omega (arith, e)) (λ m'. omega (arith, b x m')),
)
Well-step {s} h (change r t m) = h
Well-step {s} h (give_back r rest t p e) = Distinct-perm s.next h (give s.free p)
Well-step {s} (d, b) (drop r rest p) = (
  (Nodup-cons.0 (Perm.nodup (take_free s.held p) d)).1,
  λ x m. b x ((Perm.mem_iff (take_free s.held p)).1 (mem-cons_of_mem r m)),
)

Reach-Well : {s : Heap} → Reach s → Well s
Reach-Well (start objects) = (Nodup-nil, λ x h. absurd (not-mem-nil h))
Reach-Well (then h st) = Well-step (Reach-Well h) st

store-ne : (objects : Objects) {q r : ℕ} (t : Table) → r ≢ q → store objects q t r ≡ objects r
store-ne objects {q} {r} t h = elim (Bool-cases (r == q)) [
  | inl e ↦ absurd (h ((==_iff r q).0 e))
  | inr e ↦ rw (e) refl
]

-- A held table is none that the pool hands out.
held-not-free :
    (s : Heap) {r q : ℕ} {rest : List ℕ} → Well s → Mem r s.held → Perm s.free (q ∷ rest) → r ≢ q
held-not-free s {r} {q} {rest} (d, b) m p e =
    (Nodup-cons.0 (Perm.nodup (take_free s.held p) d)).0
      (mem-append_left rest (subst (λ x. Mem x s.held) e m))

abbrev Kept : ℕ → Heap → Heap → Type 0
Kept r s s' = Mem r s'.held × (s'.objects r ≡ s.objects r)

step-Kept :
    {s s' : Heap} {r : ℕ} {who : Option ℕ}
    → Well s
    → Mem r s.held
    → Step s who s'
    → who ≢ some r
    → Kept r s s'
step-Kept {s} {r} h m (reuse db name q rest p) n =
    (mem-cons_of_mem q m, store-ne s.objects _ (held-not-free s h m p))
step-Kept {s} {r} h m (make db name made) n = (
  mem-cons_of_mem s.next m,
  store-ne s.objects _ (λ e. omega (arith, e, h.1 r (mem-append_left s.free m))),
)
step-Kept {s} {r} h m (change q t mq) n = (m, store-ne s.objects t (λ e. n (ap some (sym e))))
step-Kept {s} {r} h m (give_back q rest t p e) n = (
  Or.elim Mem-prop (mem-cons.0 ((Perm.mem_iff p).0 m)) (λ e. absurd (n (ap some (sym e))))
      (λ m'. m'),
  store-ne s.objects t (λ e. n (ap some (sym e))),
)
step-Kept {s} {r} h m (drop q rest p) n = (m, refl)

-- In every state that the callers reach who release each table once, no table is held twice or held
-- while the pool has it; and as long as the caller with the table makes no step, whatever the others
-- do, the table stays held, and none of its fields changes.
pub others-Kept :
    {s s' : Heap} {r : ℕ}
    → Reach s
    → Mem r s.held
    → Others r s s'
    → Nodup (s'.held ++ s'.free) × Mem r s'.held × (s'.objects r ≡ s.objects r)
others-Kept {s} {s'} {r} h m o = let go = run o in (go.0.0, go.1.0, go.1.1)
  where
    run : {t : Heap} → Others r s t → Well t × Kept r s t
    run nothing = (Reach-Well h, (m, refl))
    run (and_then o st n) =
        let (w, (k, e)) = run o in
        let (k', e') = step-Kept w k st n in (Well-step w st, (k', e' ∙ e))
