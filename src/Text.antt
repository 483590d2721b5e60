-- ===== src/Text.antt =====
-- Go strings as lists of bytes, and what the source uses of the packages strings and strconv.
pub mod Laws
pub mod Decimal
use Prim.Native.Char.{code}
use Prim.Native.String.{String}
use xlorm.Common.{
  ℕ, zero, suc, ◌+◌, ◌-◌, ◌/◌, ◌%◌, ◌<◌, List, [], ◌∷◌, ◌++◌, Bool, true, false, ◌&&◌, ◌||◌, ltb,
  leb, ◌==◌, if◌then◌else◌, ℤ, pos, negsuc,
}

abbrev pub Text : Type 0
Text = List ℕ

-- The bytes of an ASCII literal.
unfoldable pub codes : String → Text
codes String.[] = []
codes (String.◌∷◌ c s) = code c ∷ codes s

-- `s == t`
unfoldable pub eq_text : Text → Text → Bool
eq_text [] [] = true
eq_text [] (d ∷ t) = false
eq_text (c ∷ s) [] = false
eq_text (c ∷ s) (d ∷ t) = c == d && eq_text s t

-- `strings.Count(s, sep)` for a separator of one byte.
unfoldable pub count : Text → ℕ → ℕ
count [] b = 0
count (c ∷ s) b = if c == b then suc (count s b) else count s b

unfoldable pub has_byte : Text → ℕ → Bool
has_byte [] b = false
has_byte (c ∷ s) b = c == b || has_byte s b

-- `strings.ContainsAny(s, chars)` for ASCII `chars`.
unfoldable pub contains_any : Text → Text → Bool
contains_any [] chars = false
contains_any (c ∷ s) chars = has_byte chars c || contains_any s chars

-- `strings.Join(elems, sep)`
unfoldable pub join : List Text → Text → Text
join [] sep = []
join (p ∷ []) sep = p
join (p ∷ q ∷ ps) sep = p ++ (sep ++ join (q ∷ ps) sep)

-- What a `strings.Builder` holds after these writes.
unfoldable pub concat : List Text → Text
concat [] = []
concat (t ∷ ts) = t ++ concat ts

-- The decimal digits of `n` before `out`; a round divides `n` by ten, so `n` rounds are enough.
unfoldable pub digits : ℕ → ℕ → Text → Text
digits zero n out = out
digits (suc fuel) n out =
    let rest = digits fuel (n / 10) ((b'0' + n % 10) ∷ out) in if n == 0 then out else rest

unfoldable pub format_nat : ℕ → Text
unfolding digits
format_nat n = if n == 0 then b'0' ∷ [] else digits n n []

-- `strconv.FormatInt(n, 10)`
unfoldable pub format_int : ℤ → Text
unfolding format_nat
format_int (pos n) = format_nat n
format_int (negsuc n) = b'-' ∷ format_nat (suc n)
