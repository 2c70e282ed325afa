-- ===== src/Classic/Jemalloc/SizeClasses/Search.antt =====
-- The class that je_size_to_class of classic/jemalloc/size_classes.h finds.
use my_malloc.Prelude.{
  all_below, ℕ, ◌+◌, ◌<◌, ◌≤◌, ◌≡◌, refl, ap, ◌∙◌, ◌⊎◌, inl, inr, true, false, arith, ltb, leb,
  Bool-cases,
}
use my_malloc.Classic.Tcmalloc.SizeClasses.{at_least_one}
use my_malloc.Classic.Tcmalloc.SizeClasses.Search.{
  First, Increasing, increasing_by_steps, binary_search-First,
}
use my_malloc.Classic.Jemalloc.SizeClasses.{
  je_small_max, je_nsmall_classes, je_class_info, je_entry_size, je_size_to_class, je_class_to_size,
}

table_steps :
    all_below (λ i. leb (je_entry_size je_class_info i) (je_entry_size je_class_info (i + 1))) 35
    ≡ true
unfolding all_below je_entry_size
table_steps = refl

table-Increasing : Increasing (je_entry_size je_class_info) 36
table-Increasing i j le below =
    increasing_by_steps (je_entry_size je_class_info) 35 i j table_steps le below

je_class_to_size-entry : (i : ℕ) → i < 36 → je_class_to_size i ≡ je_entry_size je_class_info i
unfolding je_class_to_size
je_class_to_size-entry i below =
    let inside : leb je_nsmall_classes i ≡ false = ground arith in rw inside refl

last_entry : je_entry_size je_class_info 35 ≡ 8192
unfolding je_entry_size
last_entry = refl

je_size_to_class-First :
    (size : ℕ)
    → size ≤ je_small_max
    → First (je_entry_size je_class_info) (at_least_one size) 35 (je_size_to_class size)
unfolding je_size_to_class
je_size_to_class-First size small =
    let few : ltb je_small_max (at_least_one size) ≡ false = ground arith in
    rw few (
      binary_search-First 6 (je_entry_size je_class_info) 36 (at_least_one size) 35 0 35
        table-Increasing (omega arith) (omega arith) (omega arith) (omega arith)
        (λ i below. absurd (omega arith)) (inl refl))

-- A size up to 8192 gets a class whose objects hold it. The sizes from 8193 to 14336, which count as
-- small too, get the last class, whose objects have 8192 bytes: they are smaller than the size.
pub je_class_to_size-je_size_to_class :
    (size : ℕ)
    → size ≤ je_small_max
    → ((size ≤ 8192) × (size ≤ je_class_to_size (je_size_to_class size)))
      ⊎ ((8192 < size) × (je_class_to_size (je_size_to_class size) ≡ 8192))
je_class_to_size-je_size_to_class size small =
    let r = je_size_to_class size in
    let f = je_size_to_class-First size small in
    let entry = je_class_to_size-entry r (omega (arith, f.bounded)) in
    let top = table-Increasing r 35 f.bounded (omega arith) in
    elim f.fits [
      | inl last ↦
          let same : je_class_to_size r ≡ 8192 =
            entry ∙ ap (je_entry_size je_class_info) last ∙ last_entry in
          elim (Bool-cases (leb size 8192)) [
            | inl e ↦ inl (ground arith, ground arith)
            | inr e ↦ inr (ground arith, same)
          ]
      | inr le ↦
          let size_le : size ≤ je_entry_size je_class_info r = ground arith in
          inl (omega (arith, top, last_entry, size_le), omega (arith, entry, size_le))
    ]
