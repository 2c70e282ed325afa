-- ===== src/Adaptive/Services/Allocate/Lookup.antt =====
-- A block of src/adaptive_services.cpp from a new mapping is found again by its user pointer.
use my_malloc.Prelude.{
  eq_refl, ℕ, ◌+◌, ◌-◌, ◌%◌, ◌^◌, ◌<◌, ◌≤◌, ◌≡◌, refl, ◌∙◌, ap, inl, inr, Bool, true, false, ◌||◌,
  some, arith, ltb, leb, ◌==◌, if◌then◌else◌, Bool-cases,
}
use my_malloc.Adaptive.Types.{
  AllocationRequest, AdaptiveHeader, hdr_offset, adaptive_magic, direct_map,
}
use my_malloc.Adaptive.Runtime.{adaptive_valid_mode_id}
use my_malloc.Adaptive.Services.State.{Services, has_flag, flag_pooled, flag_redzone}
use my_malloc.Adaptive.Services.PageTable.{page_key, page_count, page_maybe_owned, register_region}
use my_malloc.Adaptive.Services.PageTable.Ownership.{Represents}
use my_malloc.Adaptive.Services.PageTable.Regions.{
  in_region, in_region_page, room_for_all, register_region-Represents, page_maybe_owned-Represents,
}
use my_malloc.Adaptive.Services.Headers.{
  header_plausible, header_fast, header_from_user, write_debug_guards, registry_insert,
  valid_storage_id,
}
use my_malloc.Adaptive.Services.Allocate.{place_mapping, effective_alignment}
use my_malloc.Adaptive.Services.Allocate.DirectMap.{Placed}

write_debug_guards-page_table :
    (hdr : ℕ) (s : Services) → (write_debug_guards hdr s).page_table ≡ s.page_table
unfolding write_debug_guards
write_debug_guards-page_table hdr s =
    elim (Bool-cases (has_flag (s.headers hdr).flags flag_redzone)) [
      | inl e ↦ rw e refl
      | inr e ↦ rw e refl
    ]

-- The cookie is none of the fields that are looked at.
write_debug_guards-plausible :
    (hdr user : ℕ) (s : Services)
    → header_plausible hdr user ((write_debug_guards hdr s).headers hdr)
      ≡ header_plausible hdr user (s.headers hdr)
unfolding write_debug_guards header_plausible
write_debug_guards-plausible hdr user s =
    elim (Bool-cases (has_flag (s.headers hdr).flags flag_redzone)) [
      | inl e ↦ rw (e, eq_refl hdr) refl
      | inr e ↦ rw e refl
    ]

header_fast_found :
    (ptr hdr : ℕ) (s : Services)
    → hdr + hdr_offset ≡ ptr
    → page_maybe_owned ptr s.page_table ≡ true
    → header_plausible hdr ptr (s.headers hdr) ≡ true
    → header_fast ptr s ≡ some hdr
unfolding header_fast
header_fast_found ptr hdr s at_ptr owned plausible =
    let no_null : (ptr == 0) ≡ false = ground arith in
    let no_small : ltb ptr hdr_offset ≡ false = ground arith in
    let same : ptr - hdr_offset ≡ hdr = omega arith in
    rw (no_null, owned, no_small, same, plausible) refl

header_from_user_found :
    (ptr hdr : ℕ) (s : Services)
    → header_fast ptr s ≡ some hdr
    → header_from_user ptr s ≡ (s, some hdr)
unfolding header_from_user
header_from_user_found ptr hdr s found = rw (found, header_from_user) refl

direct_plausible :
    (hdr ptr : ℕ) (h : AdaptiveHeader)
    → 1 ≤ hdr
    → h.magic ≡ adaptive_magic
    → h.storage ≡ direct_map
    → adaptive_valid_mode_id h.mode_id ≡ true
    → hdr + hdr_offset ≡ ptr
    → h.requested ≤ h.usable
    → has_flag h.flags flag_pooled ≡ false
    → 1 ≤ h.region_base
    → hdr_offset ≤ h.mapped_size
    → header_plausible hdr ptr h ≡ true
unfolding header_plausible valid_storage_id
direct_plausible hdr ptr h some_header magic storage mode at_ptr small no_pool base mapped =
    let not_null : (hdr == 0) ≡ false = ground arith in
    let fits : ltb h.usable h.requested ≡ false = ground arith in
    let based : (h.region_base == 0) ≡ false = ground arith in
    let long : leb hdr_offset h.mapped_size ≡ true = ground arith in
    rw (not_null, magic, storage, mode, at_ptr, eq_refl ptr, fits, no_pool, based, long) refl

-- The user pointer of a block from a new mapping leads back to its header, where the page table
-- represents a set of pages with none of the new mapping's, every page of the mapping finds room in
-- it, and the request names one of the eight modes.
pub header_from_user-place_mapping :
    (req : AllocationRequest) (usable mapped region : ℕ) (s : Services) (pages : ℕ → Bool)
    → Placed req region mapped (place_mapping req usable mapped region s).1
    → 1 ≤ usable
    → Represents s.page_table pages
    → 4096 ≤ region
    → region % 4096 ≡ 0
    → region + mapped ≤ 2 ^ 47
    → ((q : ℕ) → in_region region mapped q ≡ true → pages q ≡ false)
    → room_for_all (page_key region) (page_count region mapped) s.page_table ≡ true
    → adaptive_valid_mode_id req.mode ≡ true
    → let (s', r) = place_mapping req usable mapped region s in
      header_from_user r.user_ptr s' ≡ (s', some r.header)
unfolding place_mapping registry_insert
header_from_user-place_mapping req usable mapped region s pages placed positive rep low aligned fits
      fresh room mode =
    header_from_user_found ptr hdr _ (
      header_fast_found ptr hdr _ placed.header
        (ap (page_maybe_owned ptr) (write_debug_guards-page_table hdr _) ∙ owned)
        (write_debug_guards-plausible hdr ptr _
          ∙ rw (eq_refl hdr) (
              direct_plausible hdr ptr _ (omega (arith, placed.above, low)) refl refl mode
                placed.header placed.holds not_pooled (omega arith)
                (omega (arith, placed.inside, placed.above, placed.header)))))
  where
    ptr : ℕ
    ptr = (place_mapping req usable mapped region s).1.user_ptr

    hdr : ℕ
    hdr = (place_mapping req usable mapped region s).1.header

    long : 0 < mapped
    long = omega (arith, placed.inside, placed.above, placed.header)

    inside_low : region ≤ ptr
    inside_low = omega (arith, placed.above, placed.header)

    inside_high : ptr < region + mapped
    inside_high = omega (arith, placed.inside)

    owned : page_maybe_owned ptr (register_region region mapped s.page_table) ≡ true
    owned =
        page_maybe_owned-Represents ptr (register_region region mapped s.page_table)
          (λ q. in_region region mapped q || pages q)
          (register_region-Represents region mapped s.page_table pages rep low fresh room long)
          (omega (arith, placed.above, placed.header))
        ∙ rw (in_region_page region mapped ptr aligned inside_low inside_high (omega arith)) refl

    not_pooled :
        has_flag
          ((if ltb 16 (effective_alignment req) then 1 else 0)
            + (if req.debug_redzone then 4 else 0))
          flag_pooled
        ≡ false
    not_pooled = flags (ltb 16 (effective_alignment req)) req.debug_redzone
      where
        flags :
            (a b : Bool)
            → has_flag ((if a then 1 else 0) + (if b then 4 else 0)) flag_pooled ≡ false
        flags true true = refl
        flags true false = refl
        flags false true = refl
        flags false false = refl
