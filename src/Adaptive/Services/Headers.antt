-- ===== src/Adaptive/Services/Headers.antt =====
-- src/adaptive_services.cpp: debug guards, the lookup of a header, and the registry.
use my_malloc.Prelude.{
  ℕ, zero, suc, ◌+◌, ◌-◌, ◌*◌, ◌/◌, ◌%◌, ◌^◌, bit_xor, Bool, true, false, not, ◌&&◌, ◌||◌, Option,
  none, some, ◌∷◌, ltb, leb, ◌==◌, if◌then◌else◌, word,
}
use my_malloc.Adaptive.Types.{
  StorageId, no_storage, size_class, span, direct_map, unnamed_storage, AdaptiveHeader,
  adaptive_magic, hdr_offset,
}
use my_malloc.Adaptive.Runtime.{adaptive_valid_mode_id}
use my_malloc.Adaptive.Telemetry.{
  adaptive_telemetry_on_double_free, adaptive_telemetry_on_header_corruption,
}
use my_malloc.Adaptive.Services.PageTable.{page_maybe_owned}
use my_malloc.Adaptive.Services.State.{
  Services, set_header, count_event, has_flag, flag_redzone, flag_pooled, unlink,
}

abbrev pub adaptive_debug_canary : ℕ
adaptive_debug_canary = 0xA6D4_BEEF_51E7_CAFE

abbrev pub adaptive_debug_redzone_size : ℕ
adaptive_debug_redzone_size = 16

abbrev pub user_from_header : ℕ → ℕ
user_from_header hdr = hdr + hdr_offset

unfoldable pub valid_storage_id : StorageId → Bool
valid_storage_id size_class = true
valid_storage_id span = true
valid_storage_id direct_map = true
valid_storage_id no_storage = false
valid_storage_id (unnamed_storage k) = false

debug_cookie_for : (hdr : ℕ) → AdaptiveHeader → ℕ
debug_cookie_for hdr h =
    bit_xor (bit_xor adaptive_debug_canary hdr) (h.requested * 0x9E37_79B1 % word)

abbrev pub canary_byte : ℕ → ℕ
canary_byte i = adaptive_debug_canary / 2 ^ (8 * (i % 8)) % 256

-- The first n bytes of the guard behind a block.
write_tail : (tail n : ℕ) → (ℕ → ℕ) → ℕ → ℕ
write_tail tail zero bytes a = bytes a
write_tail tail (suc i) bytes a = if tail + i == a then canary_byte i else write_tail tail i bytes a

tail_matches : (tail n : ℕ) → (ℕ → ℕ) → Bool
tail_matches tail zero bytes = true
tail_matches tail (suc i) bytes = tail_matches tail i bytes && bytes (tail + i) == canary_byte i

-- The header is not null.
unfoldable pub write_debug_guards : ℕ → Services → Services
unfolding debug_cookie_for write_tail
write_debug_guards hdr s =
    let h = s.headers hdr in
    if has_flag h.flags flag_redzone
    then record (set_header hdr (record h { debug_cookie = debug_cookie_for hdr h }) s) {
      bytes = write_tail (user_from_header hdr + h.usable) adaptive_debug_redzone_size s.bytes;
    }
    else s

unfoldable pub validate_debug_guards : ℕ → Services → Bool
unfolding debug_cookie_for tail_matches
validate_debug_guards hdr s =
    let h = s.headers hdr in
    if not (has_flag h.flags flag_redzone)
    then true
    else h.debug_cookie == debug_cookie_for hdr h
      && tail_matches (user_from_header hdr + h.usable) adaptive_debug_redzone_size s.bytes

unfoldable pub header_plausible : (hdr user : ℕ) → AdaptiveHeader → Bool
unfolding valid_storage_id
header_plausible hdr user h =
    if (hdr == 0) || not (h.magic == adaptive_magic)
    then false
    else if not (valid_storage_id h.storage)
    then false
    else if not (adaptive_valid_mode_id h.mode_id)
    then false
    else if not (user_from_header hdr == user)
    then false
    else if ltb h.usable h.requested
    then false
    else if has_flag h.flags flag_pooled
    then not (h.owner_page == 0) && h.region_base == h.owner_page
    else not (h.region_base == 0) && leb hdr_offset h.mapped_size

unfoldable pub header_fast : (ptr : ℕ) → Services → Option ℕ
header_fast ptr s =
    if ptr == 0 || not (page_maybe_owned ptr s.page_table)
    then none
    else if ltb ptr hdr_offset
    then none
    else if header_plausible (ptr - hdr_offset) ptr (s.headers (ptr - hdr_offset))
    then some (ptr - hdr_offset)
    else none

-- The header of a user pointer; a page in use without a plausible header is counted as a double free
-- or as a corruption.
unfoldable pub header_from_user : (ptr : ℕ) → Services → Services × Option ℕ
header_from_user ptr s =
    let candidate = ptr - hdr_offset in
    elim (header_fast ptr s) [
      | some hdr ↦ (s, some hdr)
      | none ↦
          if page_maybe_owned ptr s.page_table && leb hdr_offset ptr
          then if page_maybe_owned candidate s.page_table && (s.headers candidate).magic == 0
            then (count_event adaptive_telemetry_on_double_free s, none)
            else if page_maybe_owned candidate s.page_table
            then (count_event adaptive_telemetry_on_header_corruption s, none)
            else (s, none)
          else (s, none)
    ]

unfoldable pub owns : (ptr : ℕ) → Services → Services × Bool
owns ptr s =
    if ptr == 0
    then (s, false)
    else let (s', found) = header_from_user ptr s in
      elim found [ some hdr ↦ (s', true) | none ↦ (s', page_maybe_owned ptr s'.page_table) ]

unfoldable pub usable_size : (hdr : ℕ) → Services → ℕ
usable_size hdr s = if hdr == 0 then 0 else (s.headers hdr).usable

unfoldable pub registry_insert : ℕ → Services → Services
registry_insert hdr s = record s { registry = hdr ∷ s.registry }

-- A header that is not linked stays unlinked.
unfoldable pub registry_remove : ℕ → Services → Services
registry_remove hdr s = record s { registry = unlink hdr s.registry }
