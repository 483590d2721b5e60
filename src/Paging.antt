-- ===== src/Paging.antt =====
-- The row offset of a page, which builder.go and table.go compute alike in int64.
pub mod Windows
use xlorm.Common.{ℤ, pos, ◌-ℤ◌, ◌*ℤ◌, wrap64}

-- `(page - 1) * pageSize`
unfoldable pub page_offset : ℤ → ℤ → ℤ
unfolding ◌-ℤ◌ ◌*ℤ◌ wrap64
page_offset page page_size = wrap64 (wrap64 (page -ℤ pos 1) *ℤ page_size)
