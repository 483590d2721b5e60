-- ===== src/Runes.antt =====
-- What the source uses of Go's text encoding: `for _, r := range s` over a string and
-- `strings.Builder.WriteRune`. The tables of the package unicode are a parameter, with the
-- documented values at the ASCII characters.
pub mod Laws
pub mod Sample
use xlorm.Common.{
  ℕ, zero, suc, ◌+◌, ◌-◌, ◌*◌, ◌/◌, ◌%◌, ◌≡◌, List, [], ◌∷◌, ◌++◌, ◌<◌, Bool, true, false, ◌&&◌,
  ◌||◌, ltb, leb, ◌==◌, if◌then◌else◌, get_or,
}
use xlorm.Text.{Text}

abbrev pub is_ascii_letter : ℕ → Bool
is_ascii_letter c = (leb b'a' c && leb c b'z') || (leb b'A' c && leb c b'Z')

abbrev pub is_ascii_digit : ℕ → Bool
is_ascii_digit c = leb b'0' c && leb c b'9'

-- `unicode.IsLetter`, `unicode.IsDigit`, `strings.ToLower`
pub record Unicode : Type 0 where
  pub is_letter : ℕ → Bool
  pub is_digit : ℕ → Bool
  pub to_lower : Text → Text
  pub is_letter_ascii : (c : ℕ) → c < 128 → is_letter c ≡ is_ascii_letter c
  pub is_digit_ascii : (c : ℕ) → c < 128 → is_digit c ≡ is_ascii_digit c

abbrev between : ℕ → ℕ → ℕ → Bool
between lo hi c = leb lo c && leb c hi

-- The range of the second byte behind the first byte `b`.
abbrev second_lo : ℕ → ℕ
second_lo b = if b == 0xE0 then 0xA0 else if b == 0xF0 then 0x90 else 0x80

abbrev second_hi : ℕ → ℕ
second_hi b = if b == 0xED then 0x9F else if b == 0xF4 then 0x8F else 0xBF

abbrev rune_error : ℕ
rune_error = 0xFFFD

-- The rune that starts with the byte `b` before `s`, and how many bytes of `s` belong to it. A byte
-- that starts no rune stands for `rune_error` alone.
unfoldable pub decode_rune : ℕ → Text → ℕ × ℕ
decode_rune b s =
    let c1 = get_or s 0 0 in
    let c2 = get_or s 1 0 in
    let c3 = get_or s 2 0 in
    if ltb b 0x80
    then (b, 0)
    else if between 0xC2 0xDF b && between 0x80 0xBF c1
    then ((b - 0xC0) * 64 + (c1 - 0x80), 1)
    else if between 0xE0 0xEF b && between (second_lo b) (second_hi b) c1 && between 0x80 0xBF c2
    then (((b - 0xE0) * 64 + (c1 - 0x80)) * 64 + (c2 - 0x80), 2)
    else if (between 0xF0 0xF4 b
        && between (second_lo b) (second_hi b) c1
        && between 0x80 0xBF c2
        && between 0x80 0xBF c3)
    then ((((b - 0xF0) * 64 + (c1 - 0x80)) * 64 + (c2 - 0x80)) * 64 + (c3 - 0x80), 3)
    else (rune_error, 0)

-- The runes of a text, of which the first `skip` bytes are already read.
unfoldable pub runes_from : ℕ → Text → List ℕ
unfolding decode_rune
runes_from skip [] = []
runes_from zero (b ∷ s) = let (r, n) = decode_rune b s in r ∷ runes_from n s
runes_from (suc skip) (b ∷ s) = runes_from skip s

unfoldable pub runes : Text → List ℕ
unfolding runes_from
runes = runes_from 0

-- `WriteRune(r)`: the bytes of a rune.
unfoldable pub encode_rune : ℕ → Text
encode_rune r =
    if ltb r 0x80
    then r ∷ []
    else if ltb r 0x800
    then (0xC0 + r / 64) ∷ (0x80 + r % 64) ∷ []
    else if ltb r 0x10000
    then (0xE0 + r / 4096) ∷ (0x80 + r / 64 % 64) ∷ (0x80 + r % 64) ∷ []
    else (0xF0 + r / 262144) ∷ (0x80 + r / 4096 % 64) ∷ (0x80 + r / 64 % 64) ∷ (0x80 + r % 64) ∷ []
