-- ===== src/Classic/Jemalloc/Extents.antt =====
-- The table of pages and the extents of classic/jemalloc/jemalloc.cpp, rtree.h and extent.h, with the blocks
-- that are extents of their own. A pointer to an extent is the number of the object, and 0 is null.
pub mod Pages
mod Tests
use my_malloc.Prelude.{
  ℕ, zero, suc, ◌+◌, ◌-◌, ◌*◌, ◌/◌, ◌%◌, ◌≡◌, Bool, true, false, Option, none, some, List, [], ◌∷◌,
  ltb, leb, ◌==◌, if◌then◌else◌, word, put,
}
use my_malloc.Classic.Tcmalloc.PageHeap.{Mapping, unmapped}
use my_malloc.Classic.Jemalloc.SizeClasses.{je_page_size}

abbrev pub rtree_nslots : ℕ
rtree_nslots = 65536

abbrev pub je_run_max_pages : ℕ
je_run_max_pages = 32

pub data ExtentState : Type 0 where
  dirty : ExtentState
  muzzy : ExtentState
  clean : ExtentState
  retained : ExtentState

pub record Extent : Type 0 where
  pub addr : ℕ
  pub size : ℕ
  pub usize : ℕ
  pub state : ExtentState
  pub run_nslots : ℕ
  pub run_obj_size : ℕ

abbrev pub zero_extent : Extent
zero_extent = record {
  addr = 0;
  size = 0;
  usize = 0;
  state = dirty;
  run_nslots = 0;
  run_obj_size = 0;
}

-- g_rtree, and the extent objects with the number of the next one.
pub record Extents : Type 0 where
  pub slots : ℕ → ℕ
  pub extents : ℕ → Extent
  pub next_extent : ℕ
  pub mapped : List Mapping

abbrev pub no_extents : Extents
no_extents = record { slots = λ i. 0; extents = λ id. zero_extent; next_extent = 1; mapped = [] }

abbrev pub rtree_idx : (addr : ℕ) → ℕ
rtree_idx addr = addr / je_page_size % rtree_nslots

unfoldable pub rtree_get : (addr : ℕ) → (slots : ℕ → ℕ) → ℕ
rtree_get addr slots = slots (rtree_idx addr)

unfoldable pub rtree_set : (addr ext : ℕ) → (slots : ℕ → ℕ) → ℕ → ℕ
rtree_set addr ext slots = put slots (rtree_idx addr) ext

unfoldable pub rtree_clear : (addr : ℕ) → (slots : ℕ → ℕ) → ℕ → ℕ
unfolding rtree_set
rtree_clear addr slots = rtree_set addr 0 slots

-- The loops over the pages of an extent from page i on, with the pages that are left.
unfoldable pub set_pages : (addr ext i left : ℕ) → (slots : ℕ → ℕ) → ℕ → ℕ
set_pages addr ext i zero slots = slots
set_pages addr ext i (suc left) slots =
    set_pages addr ext (i + 1) left (rtree_set ((addr + i * je_page_size) % word) ext slots)

unfoldable pub clear_pages : (addr i left : ℕ) → (slots : ℕ → ℕ) → ℕ → ℕ
clear_pages addr i zero slots = slots
clear_pages addr i (suc left) slots =
    clear_pages addr (i + 1) left (rtree_clear ((addr + i * je_page_size) % word) slots)

abbrev pub extent_bytes : (pages : ℕ) → ℕ
extent_bytes pages = (pages * je_page_size % word + 4095) % word / je_page_size * je_page_size

-- The mapping becomes an extent.
abbrev pub add_extent : (pages addr : ℕ) → Extents → Extents
add_extent pages addr e =
    let bytes = extent_bytes pages in
    record {
      slots = set_pages addr e.next_extent 0 pages e.slots;
      extents =
          put e.extents e.next_extent
            (record zero_extent { addr = addr; size = bytes; usize = bytes; state = clean });
      next_extent = e.next_extent + 1;
      mapped = record { base = addr; size = bytes } ∷ e.mapped;
    }

unfoldable pub extent_free : (id : ℕ) → Extents → Extents
extent_free id e =
    let ext = e.extents id in
    record e {
      slots = clear_pages ext.addr 0 (ext.size / je_page_size) e.slots;
      mapped = unmapped ext.addr ext.size e.mapped;
    }

-- The pages of a run, from one page with 31 rounds: one more as long as it has fewer than 64 objects.
unfoldable pub run_pages : (rounds obj_size target_pages : ℕ) → ℕ
run_pages zero obj_size target_pages = target_pages
run_pages (suc rounds) obj_size target_pages =
    let more = run_pages rounds obj_size (target_pages + 1) in
    if ltb (target_pages * je_page_size / obj_size) 64 then more else target_pages

abbrev pub je_usable : Extent → ℕ
je_usable ext = if ltb 0 ext.run_obj_size then ext.run_obj_size else ext.usize

-- An address that no extent covers counts as huge.
abbrev pub je_usable_size : (ptr : Option ℕ) → Extents → ℕ
je_usable_size none e = 0
je_usable_size (some ptr) e =
    if rtree_get ptr e.slots == 0
    then 2 * 1024 * 1024
    else je_usable (e.extents (rtree_get ptr e.slots))

module _ (mmap : List Mapping → (size : ℕ) → Option ℕ) where
  unfoldable pub extent_alloc : (pages : ℕ) → Extents → Option (ℕ × Extents)
  extent_alloc pages e = elim (mmap e.mapped (extent_bytes pages)) [
    | none ↦ none
    | some addr ↦ some (e.next_extent, add_extent pages addr e)
  ]

  unfoldable pub je_large_alloc : (size : ℕ) → Extents → Option ℕ × Extents
  je_large_alloc size e = elim (extent_alloc ((size + 4095) % word / je_page_size) e) [
    | none ↦ (none, e)
    | some (id, e1) ↦ (
      some (e1.extents id).addr,
      record e1 {
        extents = put e1.extents id (record (e1.extents id) { usize = size; state = dirty });
      },
    )
  ]

  unfoldable pub je_huge_alloc : (size : ℕ) → Extents → Option ℕ × Extents
  je_huge_alloc size e =
      let map_size = (size + 4095) % word / je_page_size * je_page_size in
      elim (mmap e.mapped map_size) [
        | none ↦ (none, e)
        | some addr ↦
            (some addr, record e { mapped = record { base = addr; size = map_size } ∷ e.mapped })
      ]
