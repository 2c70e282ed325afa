-- ===== src/Adaptive/Services/PageTable.antt =====
-- src/adaptive_services.cpp: g_page_table, the open-addressed set of the pages of live regions. A
-- slot holds 0, a tombstone or the address of a page; masks of low bits are written as remainders.
pub mod Probes
pub mod Ownership
pub mod Regions
mod Tests
use my_malloc.Prelude.{
  ℕ, zero, suc, ◌+◌, ◌-◌, ◌*◌, ◌/◌, ◌%◌, ◌≡◌, Bool, true, false, ◌||◌, ltb, ◌==◌, if◌then◌else◌,
  word,
}

abbrev pub adaptive_page_table_size : ℕ
adaptive_page_table_size = 262144

abbrev pub adaptive_page_table_probe : ℕ
adaptive_page_table_probe = 16

abbrev pub adaptive_page_tombstone : ℕ
adaptive_page_tombstone = word - 1

abbrev pub page_key : ℕ → ℕ
page_key addr = addr - addr % 4096

abbrev pub page_table_index : ℕ → ℕ
page_table_index page = page / 4096 % adaptive_page_table_size

abbrev pub store : (ℕ → ℕ) → ℕ → ℕ → ℕ → ℕ
store table slot value i = if slot == i then value else table i

-- The probe loops: `left` rounds are left, and the next slot is `(idx + probe) & (size - 1)`.
unfoldable pub register_probe : (page : ℕ) → (slot : ℕ → ℕ) → (probe left : ℕ) → (ℕ → ℕ) → ℕ → ℕ
register_probe page slot probe zero table = table
register_probe page slot probe (suc left) table =
    if table (slot probe) == 0
      || table (slot probe) == page
      || table (slot probe) == adaptive_page_tombstone
    then store table (slot probe) page
    else register_probe page slot (suc probe) left table

unfoldable pub unregister_probe : (page : ℕ) → (slot : ℕ → ℕ) → (probe left : ℕ) → (ℕ → ℕ) → ℕ → ℕ
unregister_probe page slot probe zero table = table
unregister_probe page slot probe (suc left) table =
    if table (slot probe) == page
    then store table (slot probe) adaptive_page_tombstone
    else if table (slot probe) == 0
    then table
    else unregister_probe page slot (suc probe) left table

unfoldable pub find_probe : (page : ℕ) → (slot : ℕ → ℕ) → (probe left : ℕ) → (ℕ → ℕ) → Bool
find_probe page slot probe zero table = false
find_probe page slot probe (suc left) table =
    if table (slot probe) == page
    then true
    else if table (slot probe) == 0
    then false
    else find_probe page slot (suc probe) left table

abbrev pub slot_of : (page probe : ℕ) → ℕ
slot_of page probe = (page_table_index page + probe) % adaptive_page_table_size

-- The body of the loops over the pages of a region.
unfoldable pub register_page : ℕ → (ℕ → ℕ) → ℕ → ℕ
register_page page table = register_probe page (slot_of page) 0 adaptive_page_table_probe table

unfoldable pub unregister_page : ℕ → (ℕ → ℕ) → ℕ → ℕ
unregister_page page table = unregister_probe page (slot_of page) 0 adaptive_page_table_probe table

-- The loop over `count` pages from `page` on.
each_page : (ℕ → (ℕ → ℕ) → ℕ → ℕ) → (page count : ℕ) → (ℕ → ℕ) → ℕ → ℕ
each_page body page zero table = table
each_page body page (suc count) table = each_page body (page + 4096) count (body page table)

-- The pages from that of the first byte to that of the last; none where the sum wraps to before it.
unfoldable pub page_count : (base size : ℕ) → ℕ
page_count base size =
    let begin = page_key base in
    let end = page_key ((base + size + (word - 1)) % word) in
    if ltb end begin then 0 else (end - begin) / 4096 + 1

unfoldable pub register_region : (base size : ℕ) → (ℕ → ℕ) → ℕ → ℕ
unfolding each_page page_count
register_region base size table =
    if base == 0 || size == 0
    then table
    else each_page register_page (page_key base) (page_count base size) table

unfoldable pub unregister_region : (base size : ℕ) → (ℕ → ℕ) → ℕ → ℕ
unfolding each_page page_count
unregister_region base size table =
    if base == 0 || size == 0
    then table
    else each_page unregister_page (page_key base) (page_count base size) table

unfoldable pub page_maybe_owned : ℕ → (ℕ → ℕ) → Bool
page_maybe_owned ptr table =
    if ptr == 0
    then false
    else find_probe (page_key ptr) (slot_of (page_key ptr)) 0 adaptive_page_table_probe table
