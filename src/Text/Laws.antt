-- ===== src/Text/Laws.antt =====
-- How the text operations act on the pieces of a concatenation.
use xlorm.Common.{
  Bool, true, if◌then◌else◌, ℕ, zero, suc, ◌+◌, ◌/◌, ◌%◌, ◌<◌, ◌≡◌, refl, sym, ap, ap₂, ◌∙◌, List,
  [], ◌∷◌, ◌++◌, false, ◌||◌, arith, All, ℤ, pos, negsuc,
}
use xlorm.Text.{
  Text, eq_text, count, has_byte, contains_any, join, concat, digits, format_nat, format_int,
}

pub eq_text_refl : (s : Text) → eq_text s s ≡ true
unfolding eq_text
eq_text_refl [] = refl
eq_text_refl (c ∷ s) = ground (arith, eq_text_refl s)

pub eq_text→eq : (s t : Text) → eq_text s t ≡ true → s ≡ t
unfolding eq_text
eq_text→eq [] [] h = refl
eq_text→eq [] (d ∷ t) h = absurd (ground arith)
eq_text→eq (c ∷ s) [] h = absurd (ground arith)
eq_text→eq (c ∷ s) (d ∷ t) h = ap₂ ◌∷◌ (ground arith) (eq_text→eq s t (ground arith))

-- A test against a text is the same from both sides.
pub eq_text_comm : (s t : Text) → eq_text s t ≡ eq_text t s
unfolding eq_text
eq_text_comm [] [] = refl
eq_text_comm [] (d ∷ t) = refl
eq_text_comm (c ∷ s) [] = refl
eq_text_comm (c ∷ s) (d ∷ t) = ground (arith, eq_text_comm s t)

-- Equal texts agree on every third one, and two that differ do not both equal a third.
pub eq_text-same : (s t u : Text) → eq_text s t ≡ true → eq_text s u ≡ eq_text t u
eq_text-same s t u h = ap (λ r. eq_text r u) (eq_text→eq s t h)

pub eq_text-apart : (s t u : Text) → eq_text s t ≡ false → eq_text s u ≡ true → eq_text t u ≡ false
eq_text-apart s t u h e = eq_text_comm t u ∙ sym (eq_text-same s u t e) ∙ h

pub count-append : (xs ys : Text) (b : ℕ) → count (xs ++ ys) b ≡ count xs b + count ys b
unfolding count
count-append [] ys b = omega arith
count-append (x ∷ xs) ys b = ground (arith, count-append xs ys b)

pub contains_any-append :
    (xs ys chars : Text)
    → contains_any (xs ++ ys) chars ≡ (contains_any xs chars || contains_any ys chars)
unfolding contains_any
contains_any-append [] ys chars = refl
contains_any-append (x ∷ xs) ys chars = ground (arith, contains_any-append xs ys chars)

-- No byte of `s` is one of `chars`.
abbrev pub Lacks : Text → Text → Type 0
Lacks chars s = contains_any s chars ≡ false

module _ (chars : Text) where
  pub append-Lacks : (xs ys : Text) → Lacks chars xs → Lacks chars ys → Lacks chars (xs ++ ys)
  append-Lacks xs ys hx hy = ground (arith, contains_any-append xs ys chars)

  pub join-Lacks :
      (ps : List Text) (sep : Text)
      → Lacks chars sep
      → All (Lacks chars) ps
      → Lacks chars (join ps sep)
  unfolding join contains_any
  join-Lacks [] sep hs h = refl
  join-Lacks (p ∷ []) sep hs h = h.0
  join-Lacks (p ∷ q ∷ ps) sep hs h =
      append-Lacks p _ h.0 (append-Lacks sep _ hs (join-Lacks (q ∷ ps) sep hs h.1))

  pub concat-Lacks : (ts : List Text) → All (Lacks chars) ts → Lacks chars (concat ts)
  unfolding concat contains_any
  concat-Lacks [] h = refl
  concat-Lacks (t ∷ ts) h = append-Lacks t (concat ts) h.0 (concat-Lacks ts h.1)

  pub if-Lacks :
      (b : Bool) (s t : Text) → Lacks chars s → Lacks chars t → Lacks chars (if b then s else t)
  if-Lacks true s t hs ht = hs
  if-Lacks false s t hs ht = ht

  pub nil-Lacks : Lacks chars []
  unfolding contains_any
  nil-Lacks = refl

  -- Decimal text holds none of `chars`, if these hold no digit and no minus sign.
  module _ (no_digit : (d : ℕ) → d < 10 → has_byte chars (b'0' + d) ≡ false) where
    digits-Lacks : (fuel n : ℕ) (out : Text) → Lacks chars out → Lacks chars (digits fuel n out)
    unfolding digits contains_any
    digits-Lacks zero n out h = h
    digits-Lacks (suc fuel) n out h =
        let d = no_digit (n % 10) (omega arith) in
        ground (arith, d, digits-Lacks fuel (n / 10) ((b'0' + n % 10) ∷ out))

    pub format_nat-Lacks : (n : ℕ) → Lacks chars (format_nat n)
    unfolding format_nat contains_any
    format_nat-Lacks n = ground (arith, no_digit 0 (omega arith), digits-Lacks n n [])

    pub format_int-Lacks : (n : ℤ) → has_byte chars b'-' ≡ false → Lacks chars (format_int n)
    unfolding format_int contains_any
    format_int-Lacks (pos n) h = format_nat-Lacks n
    format_int-Lacks (negsuc n) h = ground (arith, format_nat-Lacks (suc n))

-- A text that lacks a byte counts none of it.
pub count_of_Lacks : (b : ℕ) (s : Text) → Lacks (b ∷ []) s → count s b ≡ 0
unfolding count contains_any has_byte
count_of_Lacks b [] h = refl
count_of_Lacks b (c ∷ s) h = ground (arith, count_of_Lacks b s)

abbrev pub counts : List Text → ℕ → ℕ
counts [] b = 0
counts (t ∷ ts) b = count t b + counts ts b

pub counts-append : (xs ys : List Text) (b : ℕ) → counts (xs ++ ys) b ≡ counts xs b + counts ys b
counts-append [] ys b = omega arith
counts-append (x ∷ xs) ys b = omega (arith, counts-append xs ys b)

pub count-concat : (ts : List Text) (b : ℕ) → count (concat ts) b ≡ counts ts b
unfolding concat count
count-concat [] b = refl
count-concat (t ∷ ts) b = omega (arith, count-append t (concat ts) b, count-concat ts b)

-- A separator without the byte adds none of it.
pub count-join :
    (ts : List Text) (sep : Text) (b : ℕ) → count sep b ≡ 0 → count (join ts sep) b ≡ counts ts b
unfolding join count
count-join [] sep b h = refl
count-join (t ∷ []) sep b h = omega arith
count-join (t ∷ u ∷ ts) sep b h = omega (
  arith,
  count-append t (sep ++ join (u ∷ ts) sep) b,
  count-append sep (join (u ∷ ts) sep) b,
  count-join (u ∷ ts) sep b h,
)
