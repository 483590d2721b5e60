-- ===== src/Builder/Pages.antt =====
-- `Page` of the builder: which rows a page takes.
use xlorm.Common.{ℕ, ◌+◌, ◌-◌, ◌*◌, ◌/◌, ◌^◌, ◌≤◌, ◌<◌, ◌≡◌, [], ap, sym, ◌∙◌, arith, pos, pos_part}
use xlorm.Paging.Windows.{page_offset_of_lt, page_offset_of_overflow}
use xlorm.Builder.{Builder, set_page}
use xlorm.Paging.{page_offset}
use xlorm.Builder.Build.{offset_text}

quotient_bounds : (i size : ℕ) → 0 < size → (i / size * size ≤ i) × (i < i / size * size + size)
quotient_bounds i size h = (grind arith, grind arith)

le_mul : (q size i : ℕ) → 0 < size → q * size ≤ i → q ≤ i
le_mul q size i h k = grind arith

pred_suc : (q : ℕ) → q + 1 - 1 ≡ q
pred_suc q = omega arith

shifted : (q size i : ℕ) → q * size ≤ i → i < 2 ^ 63 → (q + 1 - 1) * size < 2 ^ 63
shifted q size i k hi = rw (pred_suc q) (omega arith)

-- Two windows of the same size that share a row are the same.
le_of_window : (a b size i : ℕ) → 0 < size → a * size ≤ i → i < b * size + size → a ≤ b
le_of_window a b size i h lo hi = grind arith

unique :
    (p page q size i : ℕ)
    → 0 < size
    → page ≡ p + 1
    → p * size ≤ i
    → i < p * size + size
    → q * size ≤ i
    → i < q * size + size
    → page ≡ q + 1
unique p page q size i h e lo hi lo' hi' =
    omega (arith, le_of_window p q size i h lo hi', le_of_window q p size i h lo' hi)

-- The offset that a page gets, if the product fits.
set_page-offset :
    (b : Builder) (page size : ℕ)
    → 0 < page
    → page < 2 ^ 63
    → 0 < size
    → (page - 1) * size < 2 ^ 63
    → (set_page b (pos page) (pos size)).offset ≡ pos ((page - 1) * size)
unfolding set_page
set_page-offset b page size hp hi hs h = ground (arith, page_offset_of_lt page size hp hi h)

-- The row `i`, counted from 0, lies on the page `i / size + 1`: Page gives it the limit `size` and an offset
-- with `offset ≤ i < offset + size`. It lies on no other page whose first row has a number below 2^63: if
-- Page gives such a page an offset with `offset ≤ i < offset + size`, it is this one. Row and page
-- numbers are those of an int64.
pub set_page-covers :
    (b : Builder) (i size : ℕ)
    → 0 < size
    → i < 2 ^ 63 - 1
    → let b' = set_page b (pos (i / size + 1)) (pos size) in
      (b'.limit ≡ pos size)
      × (b'.offset ≡ pos (i / size * size))
      × (i / size * size ≤ i)
      × (i < i / size * size + size)
      × ((page offset : ℕ)
          → 0 < page
          → page < 2 ^ 63
          → (page - 1) * size < 2 ^ 63
          → (set_page b (pos page) (pos size)).offset ≡ pos offset
          → offset ≤ i
          → i < offset + size
          → page ≡ i / size + 1)
unfolding set_page
set_page-covers b i size h hi =
    let q = i / size in
    let bounds = quotient_bounds i size h in
    let small : q ≤ i = le_mul q size i h bounds.0 in
    let exact : page_offset (pos (q + 1)) (pos size) ≡ pos ((q + 1 - 1) * size) =
      page_offset_of_lt (q + 1) size (omega arith) (omega arith)
        (shifted q size i bounds.0 (omega arith)) in
    (
      ground arith,
      ground (arith, exact, ap (λ (n : ℕ). n * size) (pred_suc q)),
      bounds.0,
      bounds.1,
      λ page offset hp hm fits e lo hi'.
          let same : ((page - 1) * size ≡ offset) =
            ap pos_part (sym (set_page-offset b page size hp hm h fits) ∙ e) in
          unique (page - 1) page q size i h (omega arith) (omega (arith, same, lo))
            (omega (arith, same, hi')) bounds.0 bounds.1,
    )

-- For a page whose first row is at 2^63 or above, but below 2^64, the product wraps to a negative
-- offset: the limit is set, and `Build` writes no OFFSET, so the query reads the first page.
pub set_page-overflow :
    (b : Builder) (page size : ℕ)
    → 0 < page
    → page < 2 ^ 63
    → 0 < size
    → 2 ^ 63 ≤ (page - 1) * size
    → (page - 1) * size < 2 ^ 64
    → let b' = set_page b (pos page) (pos size) in (b'.limit ≡ pos size) × (offset_text b' ≡ [])
unfolding set_page
set_page-overflow b page size hp hi hs lo h =
    (ground arith, ground (arith, page_offset_of_overflow page size hp hi lo h))
