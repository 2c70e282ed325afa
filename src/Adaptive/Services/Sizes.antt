-- ===== src/Adaptive/Services/Sizes.antt =====
-- src/adaptive_services.cpp: the constants, the size classes and the choice of a storage.
pub mod Classes
use my_malloc.Prelude.{
  ℕ, ◌+◌, ◌-◌, ◌*◌, ◌/◌, ◌≡◌, Bool, true, false, ◌||◌, ◌&&◌, not, Option, none, some, ltb, leb,
  ◌==◌, if◌then◌else◌, word, align_up,
}
use my_malloc.Adaptive.Types.{StorageId, size_class, span, direct_map, AllocationRequest}

abbrev pub adaptive_small_max : ℕ
adaptive_small_max = 1024

abbrev pub adaptive_medium_max : ℕ
adaptive_medium_max = 64 * 1024

abbrev pub adaptive_small_class_step : ℕ
adaptive_small_class_step = 16

abbrev pub adaptive_medium_class_step : ℕ
adaptive_medium_class_step = 1024

abbrev pub adaptive_small_class_count : ℕ
adaptive_small_class_count = adaptive_small_max / adaptive_small_class_step

abbrev pub adaptive_medium_class_count : ℕ
adaptive_medium_class_count =
    (adaptive_medium_max - adaptive_small_max) / adaptive_medium_class_step

-- A size with its class.
pub record SizeClass : Type 0 where
  pub class_index : ℕ
  pub usable : ℕ

unfoldable pub round_usable : ℕ → Option ℕ
round_usable size =
    let usable = if size == 0 then 1 else size in
    if ltb (word - 1 - 15) usable then none else some (align_up usable 16)

-- The class of a rounded size whose multiple of the step is `aligned`.
small_class_of : (rounded aligned : ℕ) → Option SizeClass
small_class_of rounded aligned =
    if ltb adaptive_small_max rounded
    then none
    else if aligned == 0 || ltb adaptive_small_max aligned
    then none
    else some (record { class_index = aligned / adaptive_small_class_step - 1; usable = aligned })

unfoldable pub small_class : ℕ → Option SizeClass
unfolding small_class_of
small_class size =
    let rounded = if size == 0 then 1 else size in
    small_class_of rounded (align_up rounded adaptive_small_class_step)

medium_class_of : (rounded aligned : ℕ) → Option SizeClass
medium_class_of rounded aligned =
    let class_index = (aligned - adaptive_small_max) / adaptive_medium_class_step - 1 in
    if ltb adaptive_medium_max rounded
    then none
    else if leb aligned adaptive_small_max || ltb adaptive_medium_max aligned
    then none
    else if ltb class_index adaptive_medium_class_count
    then some (record { class_index = class_index; usable = aligned })
    else none

unfoldable pub medium_class : ℕ → Option SizeClass
unfolding medium_class_of
medium_class size =
    let rounded = if size == 0 then 1 else size in
    medium_class_of rounded (
      align_up (if leb rounded adaptive_small_max then adaptive_small_max + 1 else rounded)
        adaptive_medium_class_step)

unfoldable pub auto_storage_for : AllocationRequest → StorageId
auto_storage_for req =
    if ltb 16 req.alignment || req.prefer_direct_map
    then direct_map
    else if leb req.size adaptive_small_max
    then size_class
    else if leb req.size adaptive_medium_max
    then span
    else if not (req.direct_map_threshold == 0) && ltb req.size req.direct_map_threshold
    then direct_map
    else direct_map
