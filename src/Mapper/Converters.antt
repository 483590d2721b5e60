-- ===== src/Mapper/Converters.antt =====
-- structmapper.go and utils.go: the converters of `NewStructMapper` by their kind, `RegisterConverter`, and
-- `convertValue` over them. An error of a converter is `none`.
use xlorm.Common.{ℕ, ◌==◌, inl, inr, Bool-cases, ◌≡◌, refl, Option, none, some, if◌then◌else◌}
use xlorm.Text.{Text}
use xlorm.Value.{Value, string, int, float, bool, time}
use xlorm.Mapper.{
  Leaf, string_leaf, int_leaf, int64_leaf, bool_leaf, float32_leaf, float64_leaf, time_leaf,
  nilable_leaf, sized_leaf, other_leaf, Parsers, Result, mapped, failed, of_parsed, convert_value,
}

-- `reflect.Kind`
pub data Kind : Type 0 where
  string_kind : Kind
  int_kind : Kind
  int64_kind : Kind
  bool_kind : Kind
  float32_kind : Kind
  float64_kind : Kind
  struct_kind : Kind
  other_kind : Kind

abbrev pub kind_of : Leaf → Kind
kind_of (string_leaf s) = string_kind
kind_of (int_leaf n) = int_kind
kind_of (int64_leaf n) = int64_kind
kind_of (bool_leaf b) = bool_kind
kind_of (float32_leaf x) = float32_kind
kind_of (float64_leaf x) = float64_kind
kind_of (time_leaf t) = struct_kind
kind_of (nilable_leaf is_nil v) = other_kind
kind_of (sized_leaf n v) = other_kind
kind_of (other_leaf v) = other_kind

abbrev pub Converter : Type 0
Converter = Text → Option Value

abbrev pub Converters : Type 0
Converters = Kind → Option Converter

-- The same kind.
abbrev number : Kind → ℕ
number string_kind = 0
number int_kind = 1
number int64_kind = 2
number bool_kind = 3
number float32_kind = 4
number float64_kind = 5
number struct_kind = 6
number other_kind = 7

-- `RegisterConverter`
unfoldable pub register_converter : Kind → Converter → Converters → Converters
register_converter kind fn converters k = if number k == number kind then some fn else converters k

module _ (parsers : Parsers) where
  open parsers use {parse_int, parse_bool, parse_float32, parse_float64, parse_time}

  -- `convertString`
  abbrev convert_string : Converter
  convert_string val = some (string val)

  -- `convertInt`
  abbrev convert_int : Converter
  convert_int val = elim (parse_int val) [ none ↦ none | some n ↦ some (int n) ]

  -- `convertInt64`
  abbrev convert_int64 : Converter
  convert_int64 val = elim (parse_int val) [ none ↦ none | some n ↦ some (int n) ]

  -- `convertBool`
  abbrev convert_bool : Converter
  convert_bool val = elim (parse_bool val) [ none ↦ none | some b ↦ some (bool b) ]

  -- `convertFloat32`
  abbrev convert_float32 : Converter
  convert_float32 val = elim (parse_float32 val) [ none ↦ none | some x ↦ some (float x) ]

  -- `convertFloat64`
  abbrev convert_float64 : Converter
  convert_float64 val = elim (parse_float64 val) [ none ↦ none | some x ↦ some (float x) ]

  -- `convertTime`
  abbrev convert_time : Converter
  convert_time s = elim (parse_time s) [ none ↦ none | some t ↦ some (time t) ]

  -- The converters of `NewStructMapper`.
  abbrev pub standard : Converters
  standard string_kind = some convert_string
  standard int_kind = some convert_int
  standard int64_kind = some convert_int64
  standard bool_kind = some convert_bool
  standard float32_kind = some convert_float32
  standard float64_kind = some convert_float64
  standard struct_kind = none
  standard other_kind = none

  -- A type without a converter is refused, but for `time.Time`.
  abbrev unregistered : Text → Leaf → Option Value
  unregistered s (time_leaf t) = convert_time s
  unregistered s v = none

  -- `convertValue`
  unfoldable pub convert_with : Converters → Text → Leaf → Option Value
  convert_with converters s v = elim (converters (kind_of v)) [
    | some converter ↦ converter s
    | none ↦ unregistered s v
  ]

  abbrev of_converted : Option Value → Result Value
  of_converted none = failed
  of_converted (some v) = mapped v

  -- What an answer of a parser comes to is the same either way.
  of_converted-parsed :
      {A : Type 0} (f : A → Value) (o : Option A)
      → of_converted (elim o [ none ↦ none | some a ↦ some (f a) ]) ≡ of_parsed f o
  unfolding of_parsed
  of_converted-parsed f none = refl
  of_converted-parsed f (some a) = refl

  -- With the converters of `NewStructMapper`, `convertValue` answers as it is used by the conversion of a struct:
  -- by the parser of the kind, the text itself for a string, and an error for any other kind than a time.
  -- A registered converter answers for its own kind, and every other kind is converted as before.
  pub convert_with-convert_value :
      (converters : Converters) (kind : Kind) (fn : Converter) (s : Text) (v : Leaf)
      → (of_converted (convert_with standard s v) ≡ convert_value parsers s v)
        × (convert_with (register_converter kind fn converters) s v
            ≡ (if number (kind_of v) == number kind then fn s else convert_with converters s v))
  unfolding convert_with register_converter convert_value
  convert_with-convert_value converters kind fn s v = (standard_answers v, registered_answers)
    where
      standard_answers :
          (w : Leaf) → of_converted (convert_with standard s w) ≡ convert_value parsers s w
      standard_answers (string_leaf t) = refl
      standard_answers (int_leaf n) = of_converted-parsed int (parse_int s)
      standard_answers (int64_leaf n) = of_converted-parsed int (parse_int s)
      standard_answers (bool_leaf b) = of_converted-parsed bool (parse_bool s)
      standard_answers (float32_leaf x) = of_converted-parsed float (parse_float32 s)
      standard_answers (float64_leaf x) = of_converted-parsed float (parse_float64 s)
      standard_answers (time_leaf t) = of_converted-parsed time (parse_time s)
      standard_answers (nilable_leaf is_nil w) = refl
      standard_answers (sized_leaf n w) = refl
      standard_answers (other_leaf w) = refl

      registered_answers :
          convert_with (register_converter kind fn converters) s v
          ≡ (if number (kind_of v) == number kind then fn s else convert_with converters s v)
      registered_answers = elim (Bool-cases (number (kind_of v) == number kind)) [
        | inl e ↦ rw (convert_with, register_converter, e) refl
        | inr e ↦ rw (convert_with, register_converter, e) refl
      ]
