-- ===== src/Classic/Jemalloc/Extents/Pages.antt =====
-- The pages of an extent in the table of classic/jemalloc/jemalloc.cpp.
use my_malloc.Prelude.{
  ℕ, zero, suc, ◌+◌, ◌*◌, ◌/◌, ◌%◌, ◌^◌, ◌<◌, ◌≤◌, ◌≡◌, ◌≢◌, refl, ◌∙◌, ap, arith, Option, some,
  List, if_true, ==_of, word,
}
use my_malloc.Classic.Tcmalloc.PageHeap.{Mapping}
use my_malloc.Classic.Tcmalloc.PageHeap.Valid.{put_same, put_other}
use my_malloc.Classic.Jemalloc.Extents.{
  Extents, Extent, rtree_idx, rtree_get, rtree_set, rtree_clear, set_pages, clear_pages,
  extent_bytes, add_extent, extent_alloc, extent_free,
}

-- The address a is in no slot of the pages.
abbrev pub Off : (a addr pages : ℕ) → Type 0
Off a addr pages = (k : ℕ) → k < pages → rtree_idx ((addr + k * 4096) % word) ≢ rtree_idx a

set_pages-kept :
    (a addr ext i left : ℕ) (slots : ℕ → ℕ)
    → ((k : ℕ) → k < left → rtree_idx ((addr + (i + k) * 4096) % word) ≢ rtree_idx a)
    → rtree_get a (set_pages addr ext i left slots) ≡ rtree_get a slots
unfolding rtree_get rtree_set set_pages
set_pages-kept a addr ext i zero slots off = refl
set_pages-kept a addr ext i (suc left) slots off =
    set_pages-kept a addr ext (i + 1) left (rtree_set ((addr + i * 4096) % word) ext slots)
      (λ k lt e. off (k + 1) (omega arith) (omega (arith, e)))
    ∙ put_other slots (rtree_idx ((addr + i * 4096) % word)) (rtree_idx a) ext
        (λ e. off 0 (omega arith) (omega (arith, e)))

set_pages-hit :
    (addr ext i left k : ℕ) (slots : ℕ → ℕ)
    → addr % 4096 ≡ 0
    → addr + (i + left) * 4096 < word
    → left ≤ 65536
    → k < left
    → rtree_get (addr + (i + k) * 4096) (set_pages addr ext i left slots) ≡ ext
unfolding rtree_get rtree_set set_pages
set_pages-hit addr ext i zero k slots page inside few lt = absurd (omega arith)
set_pages-hit addr ext i (suc left) zero slots page inside few lt =
    set_pages-kept (addr + (i + 0) * 4096) addr ext (i + 1) left
      (rtree_set ((addr + i * 4096) % word) ext slots) (λ k lt' e. absurd (omega (arith, e)))
    ∙ if_true ext (slots (rtree_idx (addr + (i + 0) * 4096))) (
        ==_of {a = rtree_idx ((addr + i * 4096) % word)} {b = rtree_idx (addr + (i + 0) * 4096)}
          (omega arith))
set_pages-hit addr ext i (suc left) (suc k) slots page inside few lt =
    let at : addr + (i + suc k) * 4096 ≡ addr + (i + 1 + k) * 4096 = omega arith in
    rw at (
      set_pages-hit addr ext (i + 1) left k (rtree_set ((addr + i * 4096) % word) ext slots) page
        (omega arith) (omega arith) (omega arith))

clear_pages-set_pages :
    (addr i left : ℕ) (slots : ℕ → ℕ)
    → clear_pages addr i left slots ≡ set_pages addr 0 i left slots
unfolding clear_pages set_pages rtree_clear
clear_pages-set_pages addr i zero slots = refl
clear_pages-set_pages addr i (suc left) slots =
    clear_pages-set_pages addr (i + 1) left (rtree_set ((addr + i * 4096) % word) 0 slots)

abbrev allocated : (pages addr : ℕ) → Extents → Extents
allocated pages addr e = add_extent pages addr e

freed_slots :
    (pages addr : ℕ) (e : Extents)
    → pages * 4096 + 4096 < word
    → (extent_free e.next_extent (allocated pages addr e)).slots
      ≡ set_pages addr 0 0 pages (allocated pages addr e).slots
unfolding extent_free
freed_slots pages addr e small =
    let whole : extent_bytes pages / 4096 ≡ pages = omega arith in
    let made = put_same e.extents e.next_extent _ in
    ap (λ (x : Extent). clear_pages x.addr 0 (x.size / 4096) (allocated pages addr e).slots) made
    ∙ ap (λ (n : ℕ). clear_pages addr 0 n (allocated pages addr e).slots) whole
    ∙ clear_pages-set_pages addr 0 pages (allocated pages addr e).slots

-- An extent of up to 65536 pages, where mmap returns a multiple of 4 KiB and the mapping ends below 2^47.
-- After extent_alloc each of its pages leads to it; after extent_free none leads anywhere; and what an
-- address reads that shares a slot with none of them is as before, after both.
pub extent_free-extent_alloc :
    (mmap : List Mapping → (size : ℕ) → Option ℕ) (pages addr k a : ℕ) (e : Extents)
    → mmap e.mapped (extent_bytes pages) ≡ some addr
    → addr % 4096 ≡ 0
    → addr + pages * 4096 < 2 ^ 47
    → pages ≤ 65536
    → k < pages
    → Off a addr pages
    → (e1 : Extents) × (extent_alloc mmap pages e ≡ some (e.next_extent, e1))
      × (rtree_get (addr + k * 4096) e1.slots ≡ e.next_extent)
      × (rtree_get (addr + k * 4096) (extent_free e.next_extent e1).slots ≡ 0)
      × (rtree_get a e1.slots ≡ rtree_get a e.slots)
      × (rtree_get a (extent_free e.next_extent e1).slots ≡ rtree_get a e.slots)
unfolding extent_alloc
extent_free-extent_alloc mmap pages addr k a e answer page inside few lt off =
    let e1 = allocated pages addr e in
    let freed = freed_slots pages addr e (omega arith) in
    let at : addr + k * 4096 ≡ addr + (0 + k) * 4096 = omega arith in
    let off' : (j : ℕ) → j < pages → rtree_idx ((addr + (0 + j) * 4096) % word) ≢ rtree_idx a =
      λ j below e. off j below (omega (arith, e)) in
    let hit = λ (ext : ℕ) (slots : ℕ → ℕ).
      ap (λ (x : ℕ). rtree_get x (set_pages addr ext 0 pages slots)) at
      ∙ set_pages-hit addr ext 0 pages k slots page (omega arith) few lt in
    let kept = set_pages-kept a addr e.next_extent 0 pages e.slots off' in
    (
      e1,
      rw (answer, extent_alloc) refl,
      hit e.next_extent e.slots,
      ap (λ (s : ℕ → ℕ). rtree_get (addr + k * 4096) s) freed ∙ hit 0 e1.slots,
      kept,
      ap (rtree_get a) freed ∙ set_pages-kept a addr 0 0 pages e1.slots off' ∙ kept,
    )
