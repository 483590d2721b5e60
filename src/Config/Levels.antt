-- ===== src/Config/Levels.antt =====
-- The log level that is set against the one that is read.
use xlorm.Common.{
  ◌≡◌, refl, sym, ap, ◌∙◌, true, false, Option, none, some, if◌then◌else◌, Bool-cases, Option-cases,
  inl, inr, is_empty, ◌⊎◌, ◌≢◌,
}
use xlorm.Text.{Text, codes, eq_text}
use xlorm.Text.Laws.{eq_text→eq}
use xlorm.Dict.{lookup}
use xlorm.Config.{
  Level, level_debug, level_info, level_warn, level_error, log_level_map, LowersAscii,
  parse_log_level, set_log_level, get_log_level,
}

some-injective : {a l : Level} → some a ≡ some l → a ≡ l
some-injective e = cc

none-ne-some : {l : Level} → none ≢ some l
none-ne-some e = cc

found :
    (name s : Text) (a l : Level) (o : Option Level)
    → (if eq_text name s then some a else o) ≡ some l
    → ((a ≡ l) × (name ≡ s)) ⊎ (o ≡ some l)
found name s a l o h = elim (Bool-cases (eq_text name s)) [
  | inl e ↦ inl (some-injective (rw e at h), eq_text→eq name s e)
  | inr e ↦ inr (rw e at h)
]

module _ (to_lower : Text → Text) (lowers : LowersAscii to_lower) where
  abbrev name_of : Level → Text
  name_of level_debug = codes "debug"
  name_of level_info = codes "info"
  name_of level_warn = codes "warn"
  name_of level_error = codes "error"

  get_log_level-name : (l : Level) → get_log_level to_lower l ≡ name_of l
  unfolding get_log_level codes
  get_log_level-name level_debug = lowers (codes "DEBUG") refl
  get_log_level-name level_info = lowers (codes "INFO") refl
  get_log_level-name level_warn = lowers (codes "WARN") refl
  get_log_level-name level_error = lowers (codes "ERROR") refl

  lower_name : (l : Level) → to_lower (name_of l) ≡ name_of l
  unfolding codes
  lower_name level_debug = lowers (codes "debug") refl
  lower_name level_info = lowers (codes "info") refl
  lower_name level_warn = lowers (codes "warn") refl
  lower_name level_error = lowers (codes "error") refl

  parse_name : (l : Level) → parse_log_level to_lower (name_of l) ≡ some l
  unfolding parse_log_level lookup codes eq_text
  parse_name level_debug = rw (lower_name level_debug) refl
  parse_name level_info = rw (lower_name level_info) refl
  parse_name level_warn = rw (lower_name level_warn) refl
  parse_name level_error = rw (lower_name level_error) refl

  -- What the map of the levels finds is the level of that name.
  lookup-name : (s : Text) (l : Level) → lookup s log_level_map ≡ some l → name_of l ≡ s
  unfolding lookup
  lookup-name s l h = elim (found (codes "debug") s level_debug l _ h) [
    | inl (e, n) ↦ ap name_of (sym e) ∙ n
    | inr h1 ↦ elim (found (codes "info") s level_info l _ h1) [
      | inl (e, n) ↦ ap name_of (sym e) ∙ n
      | inr h2 ↦ elim (found (codes "warn") s level_warn l _ h2) [
        | inl (e, n) ↦ ap name_of (sym e) ∙ n
        | inr h3 ↦ elim (found (codes "error") s level_error l _ h3) [
          | inl (e, n) ↦ ap name_of (sym e) ∙ n
          | inr h4 ↦ absurd cc
        ]
      ]
    ]
  ]

  parse_log_level-name :
      (s : Text) (l : Level) → parse_log_level to_lower s ≡ some l → name_of l ≡ to_lower s
  unfolding parse_log_level
  parse_log_level-name s l h = elim (Bool-cases (is_empty s)) [
    | inl e ↦ absurd (none-ne-some (rw e at h))
    | inr e ↦ lookup-name (to_lower s) l (rw e at h)
  ]

  -- The level that GetLogLevel names is the one that SetLogLevel sets for this name, and a text either leaves
  -- the level as it is, being refused, or sets the level that GetLogLevel then names by that text in
  -- lower case.
  pub set_log_level-get_log_level :
      (l old : Level) (s : Text)
      → (set_log_level to_lower (get_log_level to_lower l) old ≡ (l, true))
        × ((set_log_level to_lower s old ≡ (old, false))
            ⊎ ((new : Level) × (set_log_level to_lower s old ≡ (new, true))
                × (get_log_level to_lower new ≡ to_lower s)))
  unfolding set_log_level
  set_log_level-get_log_level l old s = (
    rw (get_log_level-name l, set_log_level, parse_name l) refl,
    elim (Option-cases (parse_log_level to_lower s)) [
      | inl e ↦ inl (rw (set_log_level, e) refl)
      | inr (new, e) ↦
          inr
            (new, rw (set_log_level, e) refl, get_log_level-name new ∙ parse_log_level-name s new e)
    ],
  )
