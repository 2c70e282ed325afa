-- ===== src/Classic/Tcmalloc/SizeClasses/Tests.antt =====
-- Sizes around the jumps of the table.
use my_malloc.Prelude.{◌≤◌, ◌<◌, ◌≡◌, refl, ◌⊎◌, arith}
use my_malloc.Classic.Tcmalloc.SizeClasses.{
  k_num_classes, k_max_size, at_least_one, size_to_class, class_to_size,
}
use my_malloc.Classic.Tcmalloc.SizeClasses.Search.{
  First, size_to_class-First, class_to_size-size_to_class,
}

class_of_300 : size_to_class 300 ≡ 37
unfolding size_to_class
class_of_300 = refl

size_to_class-First_example :
    ((k_max_size < 300) × (size_to_class 300 ≡ k_num_classes))
    ⊎ ((300 ≤ k_max_size) × First class_to_size (at_least_one 300) 85 (size_to_class 300))
size_to_class-First_example = size_to_class-First 300

class_to_size-size_to_class_example :
    ((2000 ≤ 1080) × (2000 ≤ class_to_size (size_to_class 2000)))
    ⊎ ((1080 < 2000) × (class_to_size (size_to_class 2000) ≡ 1080))
class_to_size-size_to_class_example = class_to_size-size_to_class 2000 (omega arith)
