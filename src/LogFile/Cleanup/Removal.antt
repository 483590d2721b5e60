-- ===== src/LogFile/Cleanup/Removal.antt =====
-- Which of its own files a handler removes.
use xlorm.Common.{
  ℕ, ◌+◌, ◌-◌, ◌≡◌, ◌≢◌, ◌⊎◌, refl, sym, ap, ◌∙◌, List, [], ◌∷◌, ◌++◌, Bool, true, false, ◌&&◌,
  ◌||◌, not, ◌==◌, if◌then◌else◌, none, some, length, drop, take, get_or, ltb, All, map, inl, inr,
  Bool-cases, arith, length-append, append_assoc,
}
use xlorm.Text.{Text, codes, has_byte}
use xlorm.Text.Laws.{eq_text_refl}
use xlorm.Tags.{split, has_prefix}
use xlorm.LogFile.{FileHandler, dated_name}
use xlorm.LogFile.Cleanup.{DirEntry, has_suffix, date_part, is_old, remove_old, cleanup_old_logs}

false-ne-true : false ≢ true
false-ne-true e = cc

has_prefix-append : (s t : Text) → has_prefix (s ++ t) s ≡ true
unfolding has_prefix
has_prefix-append [] t = ground arith
has_prefix-append (c ∷ s) t = ground (arith, has_prefix-append s t)

drop-append : (s t : Text) → drop (length s) (s ++ t) ≡ t
drop-append [] t = refl
drop-append (c ∷ s) t = drop-append s t

take-append : (s t : Text) → take (length s) (s ++ t) ≡ s
take-append [] t = refl
take-append (c ∷ s) t = ap (λ r. c ∷ r) (take-append s t)

length-minus : (s t : Text) → length (s ++ t) - length t ≡ length s
length-minus s t = omega (arith, length-append s t)

has_suffix-append : (s t : Text) → has_suffix (s ++ t) t ≡ true
unfolding has_suffix
has_suffix-append s t =
    rw (length-minus s t, drop-append s t, eq_text_refl t) (ground (arith, length-append s t))

-- A text without an underscore is one part, any other has two or more.
split_cases :
    (s : Text)
    → ((has_byte s b'_' ≡ false) × (split s b'_' ≡ s ∷ []))
      ⊎ ((_ : has_byte s b'_' ≡ true) × (p : Text) × (q : Text) × (ps : List Text) × (split s b'_'
            ≡ p ∷ q ∷ ps))
unfolding split has_byte
split_cases [] = inl (refl, refl)
split_cases (c ∷ s) = elim (Bool-cases (c == b'_')) [
  | inl g ↦ elim (split_cases s) [
    | inl (h, e) ↦ inr (rw (g) refl, [], s, [], rw (g, e) refl)
    | inr (h, p, q, ps, e) ↦ inr (rw (g) refl, [], p, q ∷ ps, rw (g, e) refl)
  ]
  | inr g ↦ elim (split_cases s) [
    | inl (h, e) ↦ inl (rw (g) h, rw (g, e) refl)
    | inr (h, p, q, ps, e) ↦ inr (rw (g) h, c ∷ p, q, ps, rw (g, e) refl)
  ]
]

split-append : (s t : Text) → split (s ++ (codes "_" ++ t)) b'_' ≡ split s b'_' ++ split t b'_'
unfolding split codes
split-append [] t = refl
split-append (c ∷ s) t = elim (Bool-cases (c == b'_')) [
  | inl g ↦ rw (g, split-append s t) refl
  | inr g ↦ elim (split_cases s) [
    | inl (h, e) ↦ rw (g, split-append s t, e) refl
    | inr (h, p, q, ps, e) ↦ rw (g, split-append s t, e) refl
  ]
]

split-whole : (s : Text) → has_byte s b'_' ≡ false → split s b'_' ≡ s ∷ []
split-whole s h = elim (split_cases s) [
  | inl (b, e) ↦ e
  | inr (b, p, q, ps, e) ↦ absurd (false-ne-true (sym h ∙ b))
]

has_byte-append : (s t : Text) (b : ℕ) → has_byte (s ++ t) b ≡ (has_byte s b || has_byte t b)
unfolding has_byte
has_byte-append [] t b = refl
has_byte-append (c ∷ s) t b = ground (arith, has_byte-append s t b)

-- The second part of the base name, if there is one, does not end like a log.
abbrev pub Undated : Text → Type 0
Undated base = has_suffix (get_or (split base b'_') 1 []) (codes ".log") ≡ false

-- The name of a dated log, taken apart.
module _ (base date : Text) where
  dated_name_assoc : dated_name base date ≡ (base ++ (codes "_" ++ date)) ++ codes ".log"
  dated_name_assoc =
      ap (λ r. base ++ r) (sym (append_assoc (codes "_") date (codes ".log")))
      ∙ sym (append_assoc base (codes "_" ++ date) (codes ".log"))

  split-dated_name :
      has_byte date b'_' ≡ false
      → split (dated_name base date) b'_' ≡ split base b'_' ++ (date ++ codes ".log") ∷ []
  unfolding has_byte codes
  split-dated_name h =
      split-append base (date ++ codes ".log")
      ∙ ap (λ r. split base b'_' ++ r) (split-whole (date ++ codes ".log") (lacks h))
    where
      lacks : has_byte date b'_' ≡ false → has_byte (date ++ codes ".log") b'_' ≡ false
      lacks h = has_byte-append date (codes ".log") b'_' ∙ rw (h) refl

  date_part-dated_name :
      has_byte date b'_' ≡ false
      → Undated base
      → date_part (dated_name base date) ≡ (if has_byte base b'_' then none else some date)
  unfolding date_part codes
  date_part-dated_name h m = elim (split_cases base) [
    | inl (b, e) ↦
        rw
          (
            date_part,
            split-dated_name h,
            e,
            b,
            has_suffix-append date (codes ".log"),
            length-minus date (codes ".log"),
            take-append date (codes ".log"),
          )
          refl
    | inr (b, p, q, ps, e) ↦ rw (date_part, split-dated_name h, e, b, rw e at m) (ground arith)
  ]

-- What stands in the directory: the log of a date with the time of its last change, and a folder.
pub data Item : Type 0 where
  day_log : Text → ℕ → Item
  folder : Text → Item

abbrev pub entry_of : Text → Item → DirEntry
entry_of base (day_log date t) = record {
  name = dated_name base date;
  is_dir = false;
  info = some t;
}
entry_of base (folder name) = record { name = name; is_dir = true; info = none }

-- A date is recognised as one, and holds no underscore.
abbrev pub IsDated : (Text → Bool) → Item → Type 0
IsDated parses (day_log date t) = (parses date ≡ true) × (has_byte date b'_' ≡ false)
IsDated parses (folder name) = Unit

-- The logs whose last change is longer ago than the age allows.
unfoldable pub expired : ℕ → ℕ → Text → List Item → List Text
expired max_age now base [] = []
expired max_age now base (day_log date t ∷ items) =
    let rest = expired max_age now base items in
    if ltb (t + max_age) now then dated_name base date ∷ rest else rest
expired max_age now base (folder name ∷ items) = expired max_age now base items

module _ (parses : Text → Bool) (max_age now : ℕ) where
  is_old-log :
      (base date : Text) (t : ℕ)
      → Undated base
      → IsDated parses (day_log date t)
      → is_old parses max_age now base (entry_of base (day_log date t))
        ≡ (not (has_byte base b'_') && ltb (t + max_age) now)
  unfolding is_old
  is_old-log base date t u (p, h) =
      rw
        (
          is_old,
          has_prefix-append base (codes "_" ++ (date ++ codes ".log")),
          ap (λ s. has_suffix s (codes ".log")) (dated_name_assoc base date)
              ∙ has_suffix-append (base ++ (codes "_" ++ date)) (codes ".log"),
          date_part-dated_name base date h u,
        )
        (elim (Bool-cases (has_byte base b'_')) [ inl b ↦ rw (b) refl | inr b ↦ rw (b, p) refl ])

  remove_old-expired :
      (base : Text) (items : List Item)
      → Undated base
      → All (IsDated parses) items
      → remove_old parses max_age now base (map (entry_of base) items)
        ≡ (if has_byte base b'_' then [] else expired max_age now base items)
  unfolding remove_old expired
  remove_old-expired base [] u h = ground arith
  remove_old-expired base (day_log date t ∷ items) u (d, h) =
      ground (arith, is_old-log base date t u d, remove_old-expired base items u h)
  remove_old-expired base (folder name ∷ items) u (d, h) = remove_old-expired base items u h

  -- In a directory with folders and the logs that the handler named by dates, `cleanupOldLogs` of a rotating
  -- handler removes exactly the logs whose last change is longer ago than the age allows, in the order of
  -- the directory, if the base name has no underscore; with one, it removes none. A date is recognised
  -- as one and holds no underscore, and the second part of the base name, if there is one, does not end in .log.
  pub cleanup_old_logs-expired :
      (h : FileHandler) (items : List Item)
      → h.rotation_enabled ≡ true
      → Undated h.base_file_name
      → All (IsDated parses) items
      → cleanup_old_logs parses max_age now h (some (map (entry_of h.base_file_name) items)) ≡ (
          if has_byte h.base_file_name b'_' then [] else expired max_age now h.base_file_name items)
  unfolding cleanup_old_logs
  cleanup_old_logs-expired h items r u d = rw (r) (remove_old-expired h.base_file_name items u d)
