-- ===== src/Adaptive/Services/PageTable/Regions.antt =====
-- Registering and unregistering whole regions in g_page_table of src/adaptive_services.cpp.
use my_malloc.Prelude.{
  eq_refl, ne_of, ℕ, zero, suc, ◌+◌, ◌-◌, ◌*◌, ◌%◌, ◌≤◌, ◌<◌, ◌≡◌, ◌≢◌, refl, sym, ◌∙◌, inl, inr,
  Bool, true, false, ◌&&◌, ◌||◌, arith, ltb, ◌==◌, word, Bool-cases,
}
use my_malloc.Adaptive.Services.PageTable.{
  page_key, page_count, register_page, each_page, register_region, page_maybe_owned,
}
use my_malloc.Adaptive.Services.PageTable.Ownership.{
  IsPage, Represents, insert, room_for, register_page-Represents, find_page-Represents,
}

-- The pages of a loop.
abbrev pub in_pages : (page count : ℕ) → ℕ → Bool
in_pages page zero q = false
in_pages page (suc count) q = q == page || in_pages (page + 4096) count q

-- Every page finds room when its turn comes.
abbrev pub room_for_all : (page count : ℕ) → (ℕ → ℕ) → Bool
room_for_all page zero table = true
room_for_all page (suc count) table =
    room_for page table && room_for_all (page + 4096) count (register_page page table)

abbrev pub in_region : (base size : ℕ) → ℕ → Bool
in_region base size = in_pages (page_key base) (page_count base size)

in_pages_above : (page count q : ℕ) → in_pages page count q ≡ true → page ≤ q
in_pages_above page zero q h = absurd (cc h)
in_pages_above page (suc count) q h = elim (Bool-cases (q == page)) [
  | inl e ↦ ground arith
  | inr e ↦ omega (arith, in_pages_above (page + 4096) count q (rw e at h))
]

-- A page-aligned address above the first page.
aligned_IsPage : (page : ℕ) → 4096 ≤ page → page % 4096 ≡ 0 → IsPage page
aligned_IsPage page h a = record {
  nonzero = λ e. absurd (omega arith);
  no_tombstone = λ e. absurd (omega arith);
}

Represents-same :
    (table : ℕ → ℕ) (pages pages' : ℕ → Bool)
    → ((q : ℕ) → pages q ≡ pages' q)
    → Represents table pages
    → Represents table pages'
Represents-same table pages pages' same rep = record {
  member = λ q is_q h. rep.member q is_q (same q ∙ h);
  absent = λ q is_q h. rep.absent q is_q (same q ∙ h);
}

and_true : (a b : Bool) → (a && b) ≡ true → (a ≡ true) × (b ≡ true)
and_true true b h = (refl, h)
and_true false b h = absurd (cc h)

or_shuffle : (a b c : Bool) → (b || (a || c)) ≡ ((a || b) || c)
or_shuffle true true c = refl
or_shuffle true false c = refl
or_shuffle false b c = refl

-- The pages after the first are others.
later_ne : (page count q : ℕ) → in_pages (page + 4096) count q ≡ true → (q == page) ≡ false
later_ne page count q h =
    ne_of (λ e. absurd (omega (arith, in_pages_above (page + 4096) count q h)))

each_page-register :
    (page count : ℕ) (table : ℕ → ℕ) (pages : ℕ → Bool)
    → Represents table pages
    → 4096 ≤ page
    → page % 4096 ≡ 0
    → ((q : ℕ) → in_pages page count q ≡ true → pages q ≡ false)
    → room_for_all page count table ≡ true
    → Represents (each_page register_page page count table) (λ q. in_pages page count q || pages q)
unfolding each_page
each_page-register page zero table pages rep low aligned fresh room = rep
each_page-register page (suc count) table pages rep low aligned fresh room =
    let rooms = and_true (room_for page table) _ room in
    let first =
      register_page-Represents page table pages rep (aligned_IsPage page low aligned)
        (fresh page (rw (eq_refl page) refl)) rooms.0 in
    let rest =
      each_page-register (page + 4096) count (register_page page table) (insert page pages) first
        (omega arith) (omega arith)
        (λ q h. let ne = later_ne page count q h in rw ne (fresh q (rw (ne, h) refl))) rooms.1 in
    Represents-same _ _ _ (λ q. or_shuffle (q == page) (in_pages (page + 4096) count q) (pages q))
      rest

pub register_region-Represents :
    (base size : ℕ) (table : ℕ → ℕ) (pages : ℕ → Bool)
    → Represents table pages
    → 4096 ≤ base
    → ((q : ℕ) → in_region base size q ≡ true → pages q ≡ false)
    → room_for_all (page_key base) (page_count base size) table ≡ true
    → 0 < size
    → Represents (register_region base size table) (λ q. in_region base size q || pages q)
unfolding register_region
register_region-Represents base size table pages rep low fresh room some_bytes =
    rw (ne_of base_ne, ne_of size_ne)
      (each_page-register (page_key base) (page_count base size) table pages rep (omega arith)
        (omega arith) fresh room)
  where
    base_ne : base ≢ 0
    base_ne e = absurd (omega arith)

    size_ne : size ≢ 0
    size_ne e = absurd (omega arith)

-- If the table holds a set of pages, an address above the first page is taken to be owned exactly if
-- its page is in the set.
pub page_maybe_owned-Represents :
    (ptr : ℕ) (table : ℕ → ℕ) (pages : ℕ → Bool)
    → Represents table pages
    → 4096 ≤ ptr
    → page_maybe_owned ptr table ≡ pages (page_key ptr)
unfolding page_maybe_owned
page_maybe_owned-Represents ptr table pages rep low = rw (ne_of ptr_ne) (
    find_page-Represents (page_key ptr) table pages rep
      (aligned_IsPage (page_key ptr) (omega arith) (omega arith)))
  where
    ptr_ne : ptr ≢ 0
    ptr_ne e = absurd (omega arith)

-- The empty table.
pub empty-Represents : Represents (λ i. 0) (λ q. false)
empty-Represents = record {
  member = λ q is_q h. absurd (cc h);
  absent = λ q is_q h k e. is_q.nonzero (sym e);
}

in_pages_between :
    (page count q : ℕ)
    → page % 4096 ≡ 0
    → q % 4096 ≡ 0
    → page ≤ q
    → q < page + 4096 * count
    → in_pages page count q ≡ true
in_pages_between page zero q p r low high = absurd (omega arith)
in_pages_between page (suc count) q p r low high = elim (Bool-cases (q == page)) [
  | inl e ↦ rw e refl
  | inr e ↦
      let later : page + 4096 ≤ q = ground arith in
      rw e (in_pages_between (page + 4096) count q (omega arith) r later (omega arith))
]

-- Every address of a region lies in one of its pages.
pub in_region_page :
    (base size a : ℕ)
    → base % 4096 ≡ 0
    → base ≤ a
    → a < base + size
    → base + size < word
    → in_region base size (page_key a) ≡ true
unfolding page_count
in_region_page base size a p low high fits =
    let last : (base + size + (word - 1)) % word ≡ base + size - 1 = omega arith in
    let ordered : ltb (page_key (base + size - 1)) (page_key base) ≡ false =
      not_below _ _ (omega arith) in
    rw (last, ordered)
      (in_pages_between (page_key base) _ (page_key a) (omega arith) (omega arith) (omega arith)
        (omega arith))
  where
    not_below : (x y : ℕ) → y ≤ x → ltb x y ≡ false
    not_below x y h = ground arith
