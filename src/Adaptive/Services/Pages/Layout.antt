-- ===== src/Adaptive/Services/Pages/Layout.antt =====
-- The blocks that create_pool_page of src/adaptive_services.cpp cuts a mapping into.
use my_malloc.Prelude.{
  ℕ, zero, suc, ◌+◌, ◌-◌, ◌*◌, ◌/◌, ◌%◌, ◌^◌, ◌<◌, ◌≤◌, ◌≡◌, refl, ap, ◌⊎◌, inl, inr, true, false,
  ◌||◌, Option, none, some, List, [], ◌∷◌, length, arith, ltb, leb, ◌==◌, align_up, align_up_bounds,
  Bool-cases, Option-cases,
}
use my_malloc.Adaptive.Types.{StorageId, AllocationRequest, hdr_offset}
use my_malloc.Adaptive.Services.State.{Services, Region}
use my_malloc.Adaptive.Services.Pages.{
  blocks, page_stride, page_capacity, cut_page, create_pool_page,
}
use native.Mathlib.Nat.{div-add-mod', mod-lt, mul-le-mul_left}

-- The chain lists 16-aligned blocks from high to low addresses, each with `gap` bytes up to the next.
pub Laid : (gap low high : ℕ) → List ℕ → Type 0
Laid gap low high [] = low ≤ high
Laid gap low high (x ∷ xs) = (x + gap ≤ high) × (x % 16 ≡ 0) × Laid gap low x xs

mul_aligned : (i stride : ℕ) → stride % 16 ≡ 0 → (i * stride) % 16 ≡ 0
mul_aligned zero stride h = omega arith
mul_aligned (suc i) stride h = omega (arith, mul_aligned i stride h)

blocks-Laid :
    (first stride n gap high : ℕ)
    → first % 16 ≡ 0
    → stride % 16 ≡ 0
    → gap ≤ stride
    → first + n * stride ≤ high
    → Laid gap first high (blocks first stride n)
unfolding Laid blocks
blocks-Laid first stride zero gap high a b g h = omega arith
blocks-Laid first stride (suc i) gap high a b g h = (
  omega arith,
  omega (arith, mul_aligned i stride b),
  blocks-Laid first stride i gap (first + i * stride) a b g (omega arith),
)

length-blocks : (first stride n : ℕ) → length (blocks first stride n) ≡ n
unfolding blocks
length-blocks first stride zero = refl
length-blocks first stride (suc i) = omega (arith, length-blocks first stride i)

first_block_lem : align_up 64 16 ≡ 64
unfolding align_up
first_block_lem = refl

pub page_stride_bounds :
    (usable : ℕ)
    → usable ≤ 2 ^ 32
    → (page_stride usable % 16 ≡ 0)
      × (hdr_offset + usable ≤ page_stride usable)
      × (page_stride usable < hdr_offset + usable + 16)
unfolding page_stride
page_stride_bounds usable h = align_up_bounds 4 (hdr_offset + usable) (omega arith) (omega arith)

-- A new page of a pool: its record and the mapping that it lies in.
pub record Cut (mmap : List Region → ℕ → Option ℕ) (usable mapped : ℕ) (s : Services) (region : ℕ)
    (s' : Services) : Type 0 where
  pub from_mmap : mmap s.regions mapped ≡ some region
  pub laid : Laid (hdr_offset + usable) (region + 64) (region + mapped) (s'.pages region).free_list
  pub count : length (s'.pages region).free_list ≡ (s'.pages region).capacity
  pub full : mapped < 64 + ((s'.pages region).capacity + 1) * page_stride usable
  pub some_block : 1 ≤ (s'.pages region).capacity
  pub not_live : (s'.pages region).live_count ≡ 0

page_capacity_bounds :
    (usable mapped : ℕ)
    → usable ≤ 2 ^ 32
    → 64 ≤ mapped
    → let capacity = page_capacity usable mapped in
      (64 + capacity * page_stride usable ≤ mapped)
      × (mapped < 64 + (capacity + 1) * page_stride usable)
      × (capacity + 64 ≤ mapped)
unfolding page_capacity
page_capacity_bounds usable mapped u h =
    let stride : ℕ = page_stride usable in
    let bounds = page_stride_bounds usable u in
    let positive : 1 ≤ stride = omega (arith, bounds.1) in
    let whole : (mapped - 64) / stride * stride + (mapped - 64) % stride ≡ mapped - 64 =
      div-add-mod' (mapped - 64) stride in
    let part : (mapped - 64) % stride < stride = mod-lt (mapped - 64) positive in
    rw first_block_lem (
      omega (arith, whole, part),
      omega (arith, whole, part),
      few ((mapped - 64) / stride) stride whole positive,
    )
  where
    few :
        (q stride : ℕ)
        → q * stride + (mapped - 64) % stride ≡ mapped - 64
        → 1 ≤ stride
        → q + 64 ≤ mapped
    few q stride whole positive = omega (arith, whole, mul-le-mul_left q positive)

-- The cases of a creation, with the capacity of the page.
cut_page_lem :
    (mmap : List Region → ℕ → Option ℕ) (req : AllocationRequest) (id : StorageId)
    (c usable mapped stride capacity : ℕ) (s : Services)
    → 1 ≤ stride
    → (mapped ≤ 64 ⊎ ((capacity + 64 ≤ mapped) × (mapped < 64 + (capacity + 1) * stride)))
    → mapped ≤ 2 ^ 32
    → ((region : ℕ) × (s' : Services) × (cut_page mmap req id c usable mapped stride 64 capacity s
          ≡ some (region, s'))
        × (mmap s.regions mapped ≡ some region)
        × (64 < mapped)
        × (1 ≤ capacity)
        × ((s'.pages region).free_list ≡ blocks (region + 64) stride capacity)
        × ((s'.pages region).capacity ≡ capacity)
        × ((s'.pages region).live_count ≡ 0))
      ⊎ ((cut_page mmap req id c usable mapped stride 64 capacity s ≡ none)
          × ((mmap s.regions mapped ≡ none) ⊎ (mapped < 64 + stride)))
unfolding cut_page
cut_page_lem mmap req id c usable mapped stride capacity s positive bounds m =
    elim (Bool-cases (leb mapped 64)) [
      | inl e ↦ rw (not_zero, e) (inr (refl, inr (small e)))
      | inr e ↦ elim (Bool-cases (capacity == 0 || ltb (2 ^ 32 - 1) capacity)) [
        | inl none_fit ↦ rw (not_zero, e, none_fit) (inr (refl, inr (no_block bounds none_fit)))
        | inr fit ↦ elim (Option-cases (mmap s.regions mapped)) [
          | inl failed ↦ rw (not_zero, e, fit, failed) (inr (refl, inl refl))
          | inr (region, found) ↦
              rw (not_zero, e, fit, found)
                (inl (
                  region,
                  _,
                  refl,
                  refl,
                  ground arith,
                  ground arith,
                  rw (eq_refl region) refl,
                  rw (eq_refl region) refl,
                  rw (eq_refl region) refl,
                ))
        ]
      ]
    ]
  where
    not_zero : (stride == 0) ≡ false
    not_zero = ground arith

    eq_refl : (a : ℕ) → (a == a) ≡ true
    eq_refl a = ground arith

    small : leb mapped 64 ≡ true → mapped < 64 + stride
    small e = ground arith

    no_block :
        (mapped ≤ 64 ⊎ ((capacity + 64 ≤ mapped) × (mapped < 64 + (capacity + 1) * stride)))
        → (capacity == 0 || ltb (2 ^ 32 - 1) capacity) ≡ true
        → mapped < 64 + stride
    no_block (inl low) h = omega arith
    no_block (inr (few, full)) h =
        let zero_cap : capacity ≡ 0 = ground arith in
        omega (arith, ap (λ (t : ℕ). (t + 1) * stride) zero_cap, full)

-- A page of a pool with blocks of at most 2^32 bytes, from at most 2^32 bytes of mapping: its free
-- chain holds as many blocks as it counts, at least one and as many as fit, 16-aligned and apart, each
-- with its header behind the page record and in the mapping, and none of them live. The creation fails
-- only where mmap fails or where not even one block fits.
pub create_pool_page_lem :
    (mmap : List Region → ℕ → Option ℕ) (req : AllocationRequest) (id : StorageId)
    (c usable mapped : ℕ) (s : Services)
    → ((rs : List Region) (n b : ℕ) → mmap rs n ≡ some b → b % 4096 ≡ 0)
    → usable ≤ 2 ^ 32
    → mapped ≤ 2 ^ 32
    → ((region : ℕ) × (s' : Services) × (create_pool_page mmap req id c usable mapped s
          ≡ some (region, s'))
        × Cut mmap usable mapped s region s')
      ⊎ ((create_pool_page mmap req id c usable mapped s ≡ none)
          × ((mmap s.regions mapped ≡ none) ⊎ (mapped < 64 + page_stride usable)))
unfolding create_pool_page align_up
create_pool_page_lem mmap req id c usable mapped s aligned u m =
    rw (create_pool_page, first_block_lem)
      (elim (cut_page_lem mmap req id c usable mapped stride capacity s positive capacity_bounds
        m) [
          | inr failed ↦ inr failed
          | inl (region, s', made, found, low, some_block, chain, count, live) ↦ inl (
            region,
            s',
            made,
            record {
              from_mmap = found;
              laid = rw chain (
                  blocks-Laid (region + 64) stride capacity (hdr_offset + usable) (region + mapped)
                    (omega (arith, aligned s.regions mapped region found)) stride_bounds.0
                    stride_bounds.1
                    (omega (arith, (page_capacity_bounds usable mapped u (omega arith)).0)));
              count = rw (chain, count) (length-blocks (region + 64) stride capacity);
              full = rw count (page_capacity_bounds usable mapped u (omega arith)).1;
              some_block = rw count some_block;
              not_live = live;
            },
          )
        ])
  where
    stride : ℕ
    stride = page_stride usable

    capacity : ℕ
    capacity = page_capacity usable mapped

    stride_bounds :
        (page_stride usable % 16 ≡ 0)
        × (hdr_offset + usable ≤ page_stride usable)
        × (page_stride usable < hdr_offset + usable + 16)
    stride_bounds = page_stride_bounds usable u

    positive : 1 ≤ stride
    positive = omega (arith, stride_bounds.1)

    capacity_bounds :
        mapped ≤ 64 ⊎ ((capacity + 64 ≤ mapped) × (mapped < 64 + (capacity + 1) * stride))
    capacity_bounds = elim (Bool-cases (leb mapped 64)) [
      | inl e ↦ inl (ground arith)
      | inr e ↦
          let bounds = page_capacity_bounds usable mapped u (ground arith) in
          inr (bounds.2, bounds.1)
    ]
