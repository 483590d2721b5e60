-- ===== src/Text/Decimal.antt =====
-- Reading back the decimal digits of a number: no two numbers are written alike.
use xlorm.Common.{
  ℕ, zero, suc, ◌+◌, ◌-◌, ◌*◌, ◌/◌, ◌%◌, ◌≤◌, ◌≡◌, sym, ap, ◌∙◌, [], ◌∷◌, ◌==◌, arith, eq-cases,
  inl, inr, ◌≢◌, true, false,
}
use xlorm.Text.{Text, digits, format_nat}

-- The number that the digits say, behind those that say `acc`.
unfoldable pub read_from : ℕ → Text → ℕ
read_from acc [] = acc
read_from acc (c ∷ s) = read_from (acc * 10 + (c - b'0')) s

one_digit : (n : ℕ) → n / 10 * 10 + (b'0' + n % 10 - b'0') ≡ n
one_digit n = omega arith

read_from-digits :
    (fuel n : ℕ) (out : Text) → n ≤ fuel → read_from 0 (digits fuel n out) ≡ read_from n out
unfolding digits read_from
read_from-digits zero n out h = ap (λ a. read_from a out) (omega arith)
read_from-digits (suc fuel) n out h = elim (eq-cases n 0) [
  | inl e ↦ rw (rounded e) (ap (λ a. read_from a out) (sym e))
  | inr ne ↦ rw (started ne) (
      read_from-digits fuel (n / 10) ((b'0' + n % 10) ∷ out) (omega arith)
      ∙ ap (λ a. read_from a out) (one_digit n))
]
  where
    rounded : n ≡ 0 → (n == 0) ≡ true
    rounded e = ground arith

    started : n ≢ 0 → (n == 0) ≡ false
    started ne = ground arith

pub read_from-format_nat : (n : ℕ) → read_from 0 (format_nat n) ≡ n
unfolding format_nat read_from
read_from-format_nat n = elim (eq-cases n 0) [
  | inl e ↦ rw (zero_text e) (sym e)
  | inr ne ↦ rw (other_text ne) (read_from-digits n n [] (omega arith))
]
  where
    zero_text : n ≡ 0 → (n == 0) ≡ true
    zero_text e = ground arith

    other_text : n ≢ 0 → (n == 0) ≡ false
    other_text ne = ground arith

pub format_nat-injective : (m n : ℕ) → format_nat m ≡ format_nat n → m ≡ n
format_nat-injective m n e =
    sym (read_from-format_nat m) ∙ ap (read_from 0) e ∙ read_from-format_nat n
