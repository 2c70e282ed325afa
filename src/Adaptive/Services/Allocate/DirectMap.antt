-- ===== src/Adaptive/Services/Allocate/DirectMap.antt =====
-- Where src/adaptive_services.cpp places a block of a direct mapping.
use my_malloc.Prelude.{
  ℕ, ◌+◌, ◌-◌, ◌%◌, ◌^◌, ◌<◌, ◌≤◌, ◌≡◌, refl, ◌⊎◌, inl, inr, Bool, true, false, ◌&&◌, Option, none,
  some, List, [], arith, ltb, leb, ◌==◌, if◌then◌else◌, word, align_up, align_up_bounds,
  align_up_lem, ap, ◌∙◌, ◌*◌, ◌/◌, Bool-cases, Option-cases,
}
use my_malloc.Adaptive.Types.{AllocationRequest, AllocationResult, hdr_offset}
use my_malloc.Adaptive.Services.Sizes.{round_usable}
use my_malloc.Adaptive.Services.State.{Services, Region, fail_result}
use my_malloc.Adaptive.Services.Caches.{pop_large_extent_cache}
use my_malloc.Adaptive.Services.Allocate.{
  total_size, effective_alignment, place_mapping, map_or_fail, allocate_direct_map, is_streaming,
}

-- What mmap documents: a mapping starts at a page above the first and ends in the address space of a
-- process.
pub record MmapPlaces (mmap : List Region → ℕ → Option ℕ) : Type 0 where
  pub above : (rs : List Region) (n b : ℕ) → mmap rs n ≡ some b → 4096 ≤ b
  pub aligned : (rs : List Region) (n b : ℕ) → mmap rs n ≡ some b → b % 4096 ≡ 0
  pub below : (rs : List Region) (n b : ℕ) → mmap rs n ≡ some b → b + n ≤ 2 ^ 47

abbrev pub redzone_of : AllocationRequest → ℕ
redzone_of req = if req.debug_redzone then 16 else 0

-- The block, its guard and its header lie in the mapping.
pub record Placed (req : AllocationRequest) (region size : ℕ) (r : AllocationResult) : Type 0 where
  pub aligned : r.user_ptr % (if ltb req.alignment 16 then 16 else req.alignment) ≡ 0
  pub header : r.header + hdr_offset ≡ r.user_ptr
  pub above : region ≤ r.header
  pub inside : r.user_ptr + r.usable + redzone_of req ≤ region + size
  pub holds : req.size ≤ r.usable
  pub requested : r.requested ≡ req.size
  pub mapped : r.mapped_size ≡ size

-- The sizes of a direct mapping as numbers without wrap-around: a block of 16 bytes or of the next
-- multiple of 16, then the header, the guard and the slack for the alignment, up to whole pages.
abbrev pub block_size : (size : ℕ) → ℕ
block_size size = ((if size == 0 then 1 else size) + 15) / 16 * 16

round_usable_cases :
    (size : ℕ)
    → ((round_usable size ≡ none) × (word ≤ block_size size))
      ⊎ ((round_usable size ≡ some (block_size size)) × (size ≤ block_size size))
unfolding round_usable
round_usable_cases size = elim (Bool-cases (ltb (word - 1 - 15) nonzero)) [
  | inl e ↦ inl (rw e refl, large e)
  | inr e ↦
      let up = align_up_lem 4 nonzero (omega arith) (fits e) in
      inr (rw e (ap some (up ∙ omega arith)), omega (arith, bounds.0))
]
  where
    nonzero : ℕ
    nonzero = if size == 0 then 1 else size

    bounds : (size ≤ nonzero) × (nonzero ≤ size + 1)
    bounds = ground arith

    large : ltb (word - 1 - 15) nonzero ≡ true → word ≤ (nonzero + 15) / 16 * 16
    large e = ground arith

    fits : ltb (word - 1 - 15) nonzero ≡ false → nonzero + 2 ^ 4 ≤ word
    fits e = ground arith

total_size_cases :
    (usable redzone slack : ℕ)
    → let total = hdr_offset + usable + redzone + slack in
      ((total_size usable redzone slack ≡ none) × (word ≤ total + 4095))
      ⊎ ((total_size usable redzone slack ≡ some ((total + 4095) / 4096 * 4096))
          × (total + 4095 < word))
unfolding total_size
total_size_cases usable redzone slack =
    let total : ℕ = hdr_offset + usable + redzone + slack in
    elim (Bool-cases (ltb (word - 1 - 4095) total)) [
      | inl e ↦ inl (ground arith, ground arith)
      | inr e ↦
          let fits : total + 2 ^ 12 ≤ word = ground arith in
          let up = align_up_lem 12 total (omega arith) fits in
          let ok : total_size usable redzone slack ≡ some (align_up total 4096) = ground arith in
          inr (ok ∙ ap some (up ∙ omega arith), omega (arith, fits))
    ]

-- 0 to 16, or a power of two.
abbrev pub IsAlignment : ℕ → Type 0
IsAlignment a = (a ≤ 16) ⊎ ((k : ℕ) × (k < 64) × (a ≡ 2 ^ k))

abbrev slack_of : AllocationRequest → ℕ
slack_of req = if ltb 16 (effective_alignment req) then effective_alignment req else 0

place_small-Placed :
    (req : AllocationRequest) (usable mapped region : ℕ) (s : Services)
    → req.alignment ≤ 16
    → req.size ≤ usable
    → hdr_offset + usable + redzone_of req + slack_of req ≤ mapped
    → region % 4096 ≡ 0
    → Placed req region mapped (place_mapping req usable mapped region s).1
unfolding place_mapping
place_small-Placed req usable mapped region s small holds fits aligned =
    let eff : effective_alignment req ≡ 16 = ground arith in
    rw eff record {
      aligned = rw eff (omega arith);
      header = omega arith;
      above = omega arith;
      inside = omega (arith, fits);
      holds = holds;
      requested = refl;
      mapped = refl;
    }

place_large-Placed :
    (req : AllocationRequest) (usable mapped region k : ℕ) (s : Services)
    → 16 < req.alignment
    → k < 64
    → req.alignment ≡ 2 ^ k
    → req.size ≤ usable
    → hdr_offset + usable + redzone_of req + slack_of req ≤ mapped
    → region + mapped ≤ 2 ^ 47
    → Placed req region mapped (place_mapping req usable mapped region s).1
unfolding place_mapping
place_large-Placed req usable mapped region k s large k_small power holds fits below =
    let eff : effective_alignment req ≡ 2 ^ k = ground arith in
    let yes : ltb 16 (2 ^ k) ≡ true = ground arith in
    let slack : slack_of req ≡ 2 ^ k = rw (eff, yes) refl in
    let up = align_up_bounds k (region + hdr_offset) k_small (omega (arith, fits, slack)) in
    let low : region + hdr_offset ≤ align_up (region + hdr_offset) (2 ^ k) = up.1 in
    let high : align_up (region + hdr_offset) (2 ^ k) < region + hdr_offset + 2 ^ k = up.2 in
    rw (eff, yes)
      record {
        aligned = rw eff up.0;
        header = omega arith;
        above = omega arith;
        inside = omega (arith, fits, slack);
        holds = holds;
        requested = refl;
        mapped = refl;
      }

pub place_mapping-Placed :
    (req : AllocationRequest) (usable mapped region : ℕ) (s : Services)
    → IsAlignment req.alignment
    → req.size ≤ usable
    → hdr_offset + usable + redzone_of req + slack_of req ≤ mapped
    → region % 4096 ≡ 0
    → region + mapped ≤ 2 ^ 47
    → Placed req region mapped (place_mapping req usable mapped region s).1
place_mapping-Placed req usable mapped region s (inl small) holds fits aligned below =
    place_small-Placed req usable mapped region s small holds fits aligned
place_mapping-Placed req usable mapped region s (inr (k, k_small, power)) holds fits aligned below =
    elim (Bool-cases (ltb 16 req.alignment)) [
      | inl e ↦
          place_large-Placed req usable mapped region k s (ground arith) k_small power holds fits
            below
      | inr e ↦ place_small-Placed req usable mapped region s (ground arith) holds fits aligned
    ]

abbrev pub needed : AllocationRequest → ℕ
needed req = hdr_offset + block_size req.size + redzone_of req + slack_of req

abbrev pub needed_pages : AllocationRequest → ℕ
needed_pages req = (needed req + 4095) / 4096 * 4096

-- The three ways in which a direct mapping ends: a block, no mapping from mmap for the pages that are
-- needed, or more pages than 64 bits count.
abbrev pub Outcome :
    (List Region → ℕ → Option ℕ)
    → AllocationRequest
    → Services
    → Services × AllocationResult
    → Type 0
Outcome mmap req s outcome =
    ((region : ℕ) × (needed req + 4095 < word)
      × (mmap s.regions (needed_pages req) ≡ some region)
      × Placed req region (needed_pages req) outcome.1)
    ⊎ (((needed req + 4095 < word)
          × (mmap s.regions (needed_pages req) ≡ none)
          × (outcome ≡ (s, fail_result)))
        ⊎ ((word ≤ needed req + 4095) × (outcome ≡ (s, fail_result))))

same_either : {A : Type 0} → (x : A) (b : Bool) → (if b then x else x) ≡ x
same_either x true = refl
same_either x false = refl

no_extent_found :
    (mapped : ℕ) (s : Services)
    → s.large_extent_cache.head ≡ []
    → pop_large_extent_cache mapped s ≡ none
unfolding pop_large_extent_cache
no_extent_found mapped s empty = rw empty (same_either none _)

map_or_fail-Outcome :
    (mmap : List Region → ℕ → Option ℕ) (token : ℕ) (req : AllocationRequest) (s : Services)
    → MmapPlaces mmap
    → IsAlignment req.alignment
    → req.size ≤ block_size req.size
    → needed req + 4095 < word
    → Outcome mmap req s (map_or_fail mmap token req (block_size req.size) (needed_pages req) s)
unfolding map_or_fail
map_or_fail-Outcome mmap token req s places alignment holds fits =
    elim (Option-cases (mmap s.regions (needed_pages req))) [
      | inl e ↦ rw (e, map_or_fail) (inr (inl (fits, refl, refl)))
      | inr (region, e) ↦
          rw (e, map_or_fail)
            (inl (
              region,
              fits,
              refl,
              place_mapping-Placed req (block_size req.size) (needed_pages req) region s alignment
                  holds (omega arith) (places.aligned s.regions (needed_pages req) region e)
                  (places.below s.regions (needed_pages req) region e),
            ))
    ]

-- A direct mapping with an empty extent cache, for an alignment that is a power of two or at most 16. The
-- pages needed are those for the header, the block in whole units of 16 bytes, the guard, and for an
-- alignment above 16 as many bytes more. If their number of bytes fits 64 bits, mmap is asked for just
-- them; where it gives a mapping the block starts at a multiple of the alignment (16 at least), holds the
-- size, and lies with its header in front and its guard behind in that mapping. The allocation fails,
-- and changes nothing, just where mmap gives none or the bytes do not fit. `mmap` keeps to pages and to
-- 47-bit addresses.
pub allocate_direct_map_lem :
    (mmap : List Region → ℕ → Option ℕ) (token : ℕ) (req : AllocationRequest) (s : Services)
    → MmapPlaces mmap
    → IsAlignment req.alignment
    → s.large_extent_cache.head ≡ []
    → Outcome mmap req s (allocate_direct_map mmap token req s)
unfolding allocate_direct_map
allocate_direct_map_lem mmap token req s places alignment no_extent =
    elim (round_usable_cases req.size) [
      | inl (e, large) ↦ rw (e, allocate_direct_map) (inr (inr (omega (arith, large), refl)))
      | inr (e, holds) ↦
          rw (e, allocate_direct_map)
            (elim (total_size_cases (block_size req.size) (redzone_of req) (slack_of req)) [
              | inl (none_total, large) ↦ rw none_total (inr (inr (large, refl)))
              | inr (some_total, fits) ↦
                  rw (some_total, no_extent_found (needed_pages req) s no_extent)
                    (both (is_streaming req.mode && leb (effective_alignment req) 16)
                      (map_or_fail-Outcome mmap token req s places alignment holds fits))
            ])
    ]
  where
    both :
        (b : Bool)
        → {x : Services × AllocationResult} → Outcome mmap req s x
        → Outcome mmap req s (if b then x else x)
    both true h = h
    both false h = h
