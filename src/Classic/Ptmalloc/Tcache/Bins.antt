-- ===== src/Classic/Ptmalloc/Tcache/Bins.antt =====
-- What holds of the bins of classic/ptmalloc/tcache.cpp after any calls.
use my_malloc.Prelude.{
  List-cases, ℕ, zero, suc, ◌+◌, ◌-◌, ◌*◌, ◌%◌, ◌^◌, ◌<◌, ◌≤◌, ◌≡◌, refl, ◌∙◌, ap, inl, inr, arith,
  List, [], ◌∷◌, length, leb, ◌==◌, Bool-cases, put,
}
use my_malloc.Classic.Ptmalloc.Chunk.{user_data}
use my_malloc.Classic.Ptmalloc.Tcache.{
  Tcache, new_tcache, take_entry, tcache_alloc, put_entry, tcache_free, flush, sum_counts,
  total_count,
}

-- A call on the bins.
pub data Step (t : Tcache) : Tcache → Type 0 where
  alloc : (idx : ℕ) → Step t (tcache_alloc idx t).1
  free : (idx chunk : ℕ) → Step t (tcache_free idx chunk t).1
  flushed : (idx : ℕ) → Step t (flush idx t).1

pub data Run (memory : ℕ → ℕ) : Tcache → Type 0 where
  start : Run memory (new_tcache memory)
  later : {s t : Tcache} → Run memory s → Step s t → Run memory t

-- A bin counts its entries, and has seven at most.
abbrev pub Counted : (bin : List ℕ) → (count : ℕ) → Type 0
Counted bin count = (count ≡ length bin) × (count ≤ 7)

abbrev pub IsCounted : Tcache → Type 0
IsCounted t = (i : ℕ) → Counted (t.bins i) (t.count i)

-- One bin is changed.
put-Counted :
    (bins : ℕ → List ℕ) (count : ℕ → ℕ) (idx : ℕ) (bin : List ℕ) (n : ℕ)
    → Counted bin n
    → ((i : ℕ) → Counted (bins i) (count i))
    → (i : ℕ) → Counted (put bins idx bin i) (put count idx n i)
put-Counted bins count idx bin n new old i = elim (Bool-cases (idx == i)) [
  | inl same ↦ rw same new
  | inr other ↦ rw other (old i)
]

alloc-IsCounted : (idx : ℕ) (t : Tcache) → IsCounted t → IsCounted (tcache_alloc idx t).1
unfolding tcache_alloc take_entry
alloc-IsCounted idx t valid = elim (Bool-cases (leb 64 idx)) [
  | inl outside ↦ rw (outside, tcache_alloc) valid
  | inr inside ↦ elim (List-cases (t.bins idx)) [
    | inl e ↦ rw (inside, tcache_alloc) (rw (e, tcache_alloc) valid)
    | inr (entry, rest, e) ↦
        let (counted, few) = valid idx in
        let more : t.count idx ≡ suc (length rest) = counted ∙ ap length e in
        let fewer : Counted rest ((t.count idx + (2 ^ 32 - 1)) % 2 ^ 32) =
          (omega (arith, more, few), omega (arith, more, few)) in
        rw (inside, tcache_alloc)
          (rw (e, tcache_alloc) (put-Counted t.bins t.count idx rest _ fewer valid))
  ]
]

pushed : (bin : List ℕ) (n e : ℕ) → Counted bin n → n < 7 → Counted (e ∷ bin) ((n + 1) % 2 ^ 32)
pushed bin n e (counted, few) lt = (omega (arith, counted, lt), omega (arith, lt))

free-IsCounted : (idx chunk : ℕ) (t : Tcache) → IsCounted t → IsCounted (tcache_free idx chunk t).1
unfolding tcache_free put_entry
free-IsCounted idx chunk t valid = elim (Bool-cases (leb 64 idx)) [
  | inl outside ↦ rw outside valid
  | inr inside ↦ elim (Bool-cases (leb 7 (t.count idx))) [
    | inl full ↦ rw (inside, full) valid
    | inr room ↦
        rw (inside, room)
          (put-Counted t.bins t.count idx _ _
            (pushed (t.bins idx) (t.count idx) (user_data chunk) (valid idx) (ground arith)) valid)
  ]
]

flush-IsCounted : (idx : ℕ) (t : Tcache) → IsCounted t → IsCounted (flush idx t).1
unfolding flush
flush-IsCounted idx t valid = elim (Bool-cases (leb 64 idx)) [
  | inl outside ↦ rw outside valid
  | inr inside ↦ rw inside (put-Counted t.bins t.count idx [] 0 (refl, omega arith) valid)
]

run-IsCounted : (memory : ℕ → ℕ) (t : Tcache) → Run memory t → IsCounted t
run-IsCounted memory t start = λ i. (refl, omega arith)
run-IsCounted memory t (later run (alloc idx)) = alloc-IsCounted idx _ (run-IsCounted memory _ run)
run-IsCounted memory t (later run (free idx chunk)) =
    free-IsCounted idx chunk _ (run-IsCounted memory _ run)
run-IsCounted memory t (later run (flushed idx)) =
    flush-IsCounted idx _ (run-IsCounted memory _ run)

sum_bound : (i left : ℕ) (t : Tcache) → IsCounted t → sum_counts i left t ≤ 7 * left
unfolding sum_counts
sum_bound i zero t valid = omega arith
sum_bound i (suc left) t valid = omega (arith, (valid i).1, sum_bound (i + 1) left t valid)

-- After any calls of alloc, free and flush, from empty bins: each bin counts its entries and has seven
-- at most, so that total_count is 448 at most.
pub total_count_bound :
    (memory : ℕ → ℕ) (t : Tcache) → Run memory t → IsCounted t × (total_count t ≤ 448)
unfolding total_count
total_count_bound memory t run =
    let valid = run-IsCounted memory t run in (valid, omega (arith, sum_bound 0 64 t valid))
