-- ===== src/Placeholders.antt =====
-- utils.go and table.go: the placeholders of one record, and of several by a doubling copy.
pub mod Copies
use xlorm.Common.{
  ℕ, zero, suc, ◌+◌, ◌-◌, ◌*◌, List, [], ◌∷◌, ◌++◌, Bool, ltb, if◌then◌else◌, length, take, drop,
  replicate, set, Option, none, some, ◌==◌,
}
use xlorm.Text.{Text, codes}

-- `strings.Repeat(s, n)`
unfoldable pub repeat : ℕ → Text → Text
repeat zero s = []
repeat (suc n) s = s ++ repeat n s

-- The text that `getCachedPlaceholder` makes for one or more fields.
unfoldable pub placeholder_text : ℕ → Text
unfolding repeat
placeholder_text field_count = codes "(" ++ (repeat (field_count - 1) (codes "?,") ++ codes "?)")

module _ {ℓ} {A : Type ℓ} where
  -- `copy(xs[i:], xs[:i])`: as many elements as both slices have.
  unfoldable pub copy_front : ℕ → List A → List A
  copy_front i xs = take i xs ++ (take (length xs - i) (take i xs) ++ drop i (drop i xs))

  -- `for i := 1; i < n; i *= 2`: a round doubles `i`, so `n` rounds are enough.
  unfoldable pub double_loop : ℕ → ℕ → ℕ → List A → List A
  unfolding copy_front
  double_loop zero i n xs = xs
  double_loop (suc fuel) i n xs =
      let rest = double_loop fuel (i * 2) n (copy_front i xs) in if ltb i n then rest else xs

-- `buildPlaceholders`, with the placeholder of one record from the cache.
unfoldable pub build_placeholders : Text → ℕ → List Text
unfolding double_loop
build_placeholders placeholder record_count =
    let placeholders : List Text = replicate record_count [] in
    if ltb 0 record_count
    then double_loop record_count 1 record_count (set placeholders 0 placeholder)
    else placeholders
