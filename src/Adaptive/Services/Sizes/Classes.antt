-- ===== src/Adaptive/Services/Sizes/Classes.antt =====
-- Every size has one class, and a class determines the size of its blocks.
use my_malloc.Prelude.{
  ℕ, ◌+◌, ◌-◌, ◌*◌, ◌/◌, ◌%◌, ◌<◌, ◌≤◌, ◌≡◌, false, some, arith, leb, ◌==◌, if◌then◌else◌, align_up,
  align_up_bounds,
}
use my_malloc.Adaptive.Services.Sizes.{
  SizeClass, small_class, small_class_of, medium_class, medium_class_of,
}

-- A size, or 1 for 0.
abbrev positive : ℕ → ℕ
positive size = if size == 0 then 1 else size

positive_bounds :
    (size : ℕ) → (1 ≤ positive size) × (size ≤ positive size) × (positive size ≤ size + 1)
positive_bounds size = ground arith

small_class_found :
    (rounded aligned : ℕ)
    → rounded ≤ 1024
    → 1 ≤ aligned
    → aligned ≤ 1024
    → small_class_of rounded aligned
      ≡ some (record { class_index = aligned / 16 - 1; usable = aligned })
unfolding small_class_of
small_class_found rounded aligned h k l = ground arith

-- A size of at most 1 KiB has one of the 64 small classes: the block of its class holds the size,
-- exceeds it by at most 16, and has the size that the class determines.
pub small_class_lem :
    (size : ℕ)
    → size ≤ 1024
    → (c : SizeClass) × (small_class size ≡ some c)
      × (c.class_index < 64)
      × (c.usable ≡ 16 * (c.class_index + 1))
      × (size ≤ c.usable)
      × (c.usable ≤ size + 16)
unfolding small_class
small_class_lem size h =
    let low = positive_bounds size in
    let small : positive size ≤ 1024 = ground arith in
    let up = align_up_bounds 4 (positive size) (omega arith) (omega arith) in
    let aligned : ℕ = align_up (positive size) 16 in
    let whole : aligned % 16 ≡ 0 = up.0 in
    let above : positive size ≤ aligned = up.1 in
    let below : aligned < positive size + 16 = up.2 in
    let positive_ge : 1 ≤ positive size = low.0 in
    let holds : size ≤ positive size = low.1 in
    let tight : positive size ≤ size + 1 = low.2 in
    (
      record { class_index = aligned / 16 - 1; usable = aligned },
      small_class_found (positive size) aligned small (omega arith) (omega arith),
      omega arith,
      omega arith,
      omega arith,
      omega arith,
    )

medium_class_found :
    (rounded aligned : ℕ)
    → rounded ≤ 65536
    → 1025 ≤ aligned
    → aligned ≤ 65536
    → aligned % 1024 ≡ 0
    → medium_class_of rounded aligned
      ≡ some (record { class_index = (aligned - 1024) / 1024 - 1; usable = aligned })
unfolding medium_class_of
medium_class_found rounded aligned h k l m =
    let few : (aligned - 1024) / 1024 - 1 < 63 = omega arith in ground arith

-- The same for a size above 1 KiB and of at most 64 KiB, with the 63 medium classes and an excess
-- below 1 KiB.
pub medium_class_lem :
    (size : ℕ)
    → 1024 < size
    → size ≤ 65536
    → (c : SizeClass) × (medium_class size ≡ some c)
      × (c.class_index < 63)
      × (c.usable ≡ 1024 * (c.class_index + 2))
      × (size ≤ c.usable)
      × (c.usable < size + 1024)
unfolding medium_class
medium_class_lem size g h =
    let same : positive size ≡ size = ground arith in
    let large : leb size 1024 ≡ false = ground arith in
    let up = align_up_bounds 10 size (omega arith) (omega arith) in
    let aligned : ℕ = align_up size 1024 in
    let whole : aligned % 1024 ≡ 0 = up.0 in
    let above : size ≤ aligned = up.1 in
    let below : aligned < size + 1024 = up.2 in
    (
      record { class_index = (aligned - 1024) / 1024 - 1; usable = aligned },
      rw (same, large) (medium_class_found size aligned h (omega arith) (omega arith) whole),
      omega arith,
      omega arith,
      omega arith,
      omega arith,
    )
