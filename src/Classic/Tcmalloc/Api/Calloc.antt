-- ===== src/Classic/Tcmalloc/Api/Calloc.antt =====
-- The overflow test of tc_calloc in classic/tcmalloc/tcmalloc.cpp.
use native.Mathlib.Nat.{mul-div_cancel_left, mul-div-le}
use Prim.Native.Nat.{min}
use my_malloc.Prelude.{
  ℕ, zero, suc, ◌*◌, ◌/◌, ◌%◌, ◌<◌, ◌≤◌, ◌≡◌, ◌≢◌, refl, ◌∙◌, ap, ◌⊎◌, inl, inr, Bool, true, false,
  not, ◌&&◌, arith, Option, none, some, List, ltb, ◌==◌, Bool-cases, if_true, if_false, ne_of,
  ==_of, subst, sym, ◌+◌, if◌then◌else◌, word,
}
use my_malloc.Classic.Tcmalloc.PageHeap.{Mapping}
use my_malloc.Classic.Tcmalloc.Api.{Tcmalloc, tc_usable_size}
use my_malloc.Classic.Tcmalloc.Api.Malloc.{tc_malloc, memset_zero, filled, tc_calloc}

-- The quotient gives the factor back just where the product did not wrap around.
product_fits : (n size : ℕ) → 1 ≤ n → n * size < word → n * size % word / n ≡ size
product_fits n size pos fits =
    let whole : n * size % word ≡ n * size = omega arith in
    rw whole (mul-div_cancel_left size (omega arith))

product_wraps : (n size : ℕ) → 1 ≤ n → word ≤ n * size → n * size % word / n ≢ size
product_wraps n size pos wraps e =
    let total = n * size % word in
    let below : n * size ≤ total = subst (λ (q : ℕ). n * q ≤ total) e (mul-div-le total n) in
    omega (arith, below, wraps)

no_elements : (size : ℕ) → 0 * size ≡ 0
no_elements size = omega arith

-- The test of the source, as it decides.
overflow_test :
    (n size : ℕ)
    → ((n * size < word) × ((not (n == 0) && not (n * size % word / n == size)) ≡ false))
      ⊎ ((word ≤ n * size) × ((not (n == 0) && not (n * size % word / n == size)) ≡ true))
overflow_test zero size = inl (omega (arith, no_elements size), refl)
overflow_test (suc m) size = elim (Bool-cases (ltb (suc m * size) word)) [
  | inl fits ↦
      let lt : suc m * size < word = ground arith in
      inl (lt, rw (==_of (product_fits (suc m) size (omega arith) lt)) (ground arith))
  | inr wraps ↦
      let le : word ≤ suc m * size = ground arith in
      inr (le, rw (ne_of (product_wraps (suc m) size (omega arith) le)) (ground arith))
]

-- A call that hands out a block of n usable bytes: zeros stand in the first n bytes from p on, and nothing
-- else differs from the state s.
pub record IsZeroed (p n : ℕ) (s s' : Tcmalloc) : Type 0 where
  pub zeros : (a : ℕ) → p ≤ a → a < p + n → s'.memory a ≡ 0
  pub others : (a : ℕ) → (a < p) ⊎ (p + n ≤ a) → s'.memory a ≡ s.memory a
  pub rest : record s' { memory = s.memory } ≡ s

-- What tc_calloc makes of the result of tc_malloc for `total` bytes.
abbrev pub Filled : (total : ℕ) (malloc calloc : Option (Option ℕ × Tcmalloc)) → Type 0
Filled total none calloc = calloc ≡ none
Filled total (some (none, s)) calloc = calloc ≡ some (none, s)
Filled total (some (some p, s)) calloc =
    (s' : Tcmalloc) × (calloc ≡ some (some p, s'))
    × IsZeroed p (min (tc_usable_size (some p) s) total) s s'

if_min : (a b : ℕ) → (if ltb a b then a else b) ≡ min a b
if_min a b = ground arith

memset_zero-IsZeroed : (p n : ℕ) (s : Tcmalloc) → IsZeroed p n s (memset_zero p n s)
memset_zero-IsZeroed p n s = record {
  zeros = λ a low high. ground arith;
  others = λ a out. ground arith;
  rest = refl;
}

filled-Filled : (total : ℕ) (r : Option (Option ℕ × Tcmalloc)) → Filled total r (filled total r)
filled-Filled total none = refl
filled-Filled total (some (none, s)) = refl
filled-Filled total (some (some p, s)) =
    let usable = tc_usable_size (some p) s in
    (
      memset_zero p (if ltb usable total then usable else total) s,
      refl,
      subst (λ n. IsZeroed p n s (memset_zero p (if ltb usable total then usable else total) s))
          (if_min usable total)
          (memset_zero-IsZeroed p (if ltb usable total then usable else total) s),
    )

-- tc_calloc fails at once just where n * size, as a number without wrap-around, is 2^64 or more: it
-- returns null and changes nothing. Else it returns what tc_malloc of n * size bytes returns and leaves
-- the state that it leaves, but that zeros stand in the first n * size bytes of the block, or in its
-- usable bytes where those are fewer; no other byte is changed.
pub tc_calloc_overflow :
    (mmap : List Mapping → (size : ℕ) → Option ℕ) (aligned_alloc : ℕ → Bool) (thread n size : ℕ)
    (s : Tcmalloc)
    → ((n * size < word)
        × Filled
            (n * size)
            (tc_malloc mmap aligned_alloc thread (n * size) s)
            (tc_calloc mmap aligned_alloc thread n size s))
      ⊎ ((word ≤ n * size) × (tc_calloc mmap aligned_alloc thread n size s ≡ some (none, s)))
unfolding tc_calloc
tc_calloc_overflow mmap aligned_alloc thread n size s = elim (overflow_test n size) [
  | inr (wraps, test) ↦ inr (wraps, if_true _ _ test)
  | inl (fits, test) ↦
      let whole : n * size % word ≡ n * size = omega arith in
      let result = tc_malloc mmap aligned_alloc thread (n * size) s in
      inl (
        fits,
        subst (Filled (n * size) result)
            (sym (
              if_false _ _ test
              ∙ ap (λ (total : ℕ). filled total (tc_malloc mmap aligned_alloc thread total s))
                  whole))
            (filled-Filled (n * size) result),
      )
]
