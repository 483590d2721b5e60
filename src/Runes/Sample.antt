-- ===== src/Runes/Sample.antt =====
-- A value of `Unicode` for the tests: the tables at the ASCII characters alone.
use xlorm.Common.{◌+◌, refl, map, ◌&&◌, leb, if◌then◌else◌}
use xlorm.Runes.{Unicode, is_ascii_letter, is_ascii_digit}

abbrev pub ascii : Unicode
ascii = record {
  is_letter = is_ascii_letter;
  is_digit = is_ascii_digit;
  to_lower = map (λ c. if (leb b'A' c && leb c b'Z') then c + 32 else c);
  is_letter_ascii = λ c h. refl;
  is_digit_ascii = λ c h. refl;
}
