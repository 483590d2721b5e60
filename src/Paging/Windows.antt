-- ===== src/Paging/Windows.antt =====
-- Pages tile the rows, as long as the product fits an int64.
use xlorm.Common.{ℕ, ◌-◌, ◌*◌, ◌^◌, ◌≤◌, ◌<◌, ◌≡◌, arith, pos, negsuc}
use xlorm.Paging.{page_offset}

-- The offset of a page whose product fits.
pub page_offset_of_lt :
    (page size : ℕ)
    → 0 < page
    → page < 2 ^ 63
    → (page - 1) * size < 2 ^ 63
    → page_offset (pos page) (pos size) ≡ pos ((page - 1) * size)
unfolding page_offset
page_offset_of_lt page size hp hi h = ground arith

-- The offset of a page whose product does not fit, but fits 64 bits, is negative.
pub page_offset_of_overflow :
    (page size : ℕ)
    → 0 < page
    → page < 2 ^ 63
    → 2 ^ 63 ≤ (page - 1) * size
    → (page - 1) * size < 2 ^ 64
    → page_offset (pos page) (pos size) ≡ negsuc (2 ^ 64 - (page - 1) * size - 1)
unfolding page_offset
page_offset_of_overflow page size hp hi lo h = ground arith
