-- ===== src/Adaptive/Services/PageTable/Tests.antt =====
-- A region of three pages is registered in the empty table and unregistered again.
use my_malloc.Prelude.{ℕ, Bool, false, ◌||◌}
use my_malloc.Adaptive.Services.PageTable.Regions.{in_region}

abbrev region_pages : ℕ → Bool
region_pages q = in_region 0x10000 10000 q || false
