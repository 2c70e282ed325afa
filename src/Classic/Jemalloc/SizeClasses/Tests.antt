-- ===== src/Classic/Jemalloc/SizeClasses/Tests.antt =====
-- A size above the largest class.
use my_malloc.Prelude.{◌<◌, ◌≤◌, ◌≡◌, ◌⊎◌, arith}
use my_malloc.Classic.Jemalloc.SizeClasses.{je_size_to_class, je_class_to_size}
use my_malloc.Classic.Jemalloc.SizeClasses.Search.{je_class_to_size-je_size_to_class}

je_class_to_size-je_size_to_class_example :
    ((9000 ≤ 8192) × (9000 ≤ je_class_to_size (je_size_to_class 9000)))
    ⊎ ((8192 < 9000) × (je_class_to_size (je_size_to_class 9000) ≡ 8192))
je_class_to_size-je_size_to_class_example = je_class_to_size-je_size_to_class 9000 (omega arith)
