-- ===== src/Classic/Jemalloc/Tcache/Stuck.antt =====
-- What gc of classic/jemalloc/jemalloc.cpp leaves of a thread's cache: empty bins, with a total that stays.
use my_malloc.Prelude.{
  ℕ, zero, suc, ◌+◌, ◌*◌, ◌%◌, ◌<◌, ◌≤◌, ◌≡◌, refl, sym, ◌∙◌, ap, Bool, true, false, arith, Option,
  none, List, [], ◌∷◌, length, ltb, leb, ◌==◌, Bool-cases, inl, inr, if_true, if_false, eq_of,
  eq_refl, subst, word,
}
use my_malloc.Classic.Jemalloc.Tcache.{
  JeTcacheBin, JeTcache, je_tcache_alloc, gc_bin, gc_from, gc, push_pointer, je_tcache_free,
}

-- No bin keeps entries when it is collected; tc->init sets no other low water, and nothing changes it.
abbrev pub NoLowWater : JeTcache → Type 0
NoLowWater t = (i : ℕ) → i < 36 → (t.bins i).low_water ≡ 0

abbrev IsEmpty : JeTcacheBin → Type 0
IsEmpty b = (b.low_water ≡ 0) × (b.count ≡ 0)

pub record IsStuck (t : JeTcache) : Type 0 where
  pub empty : (i : ℕ) → i < 36 → ((t.bins i).low_water ≡ 0) × ((t.bins i).count ≡ 0)
  pub full : 4096 ≤ t.total_count

-- What a property of a bin is after the round for a bin.
gc_bin_keeps :
    (P : JeTcacheBin → Type 0) (i j : ℕ) (t : JeTcache)
    → (P (t.bins i) → P (record (t.bins i) { count = (t.bins i).low_water }))
    → P (t.bins j)
    → P ((gc_bin i t).bins j)
unfolding gc_bin
gc_bin_keeps P i j t cut at =
    elim (Bool-cases (ltb ((t.bins i).low_water * 2 % word) (t.bins i).count)) [
      | inr few ↦ subst (λ (u : JeTcache). P (u.bins j)) (sym (if_false _ _ few)) at
      | inl many ↦
          subst (λ (u : JeTcache). P (u.bins j)) (sym (if_true _ _ many))
            (elim (Bool-cases (i == j)) [
              | inr other ↦ subst P (sym (if_false _ _ other)) at
              | inl same ↦
                  subst P (sym (if_true _ _ same))
                    (cut (subst (λ (k : ℕ). P (t.bins k)) (sym (eq_of same)) at))
            ])
    ]

gc_bin-empties : (i : ℕ) (t : JeTcache) → (t.bins i).low_water ≡ 0 → IsEmpty ((gc_bin i t).bins i)
unfolding gc_bin
gc_bin-empties i t low =
    elim (Bool-cases (ltb ((t.bins i).low_water * 2 % word) (t.bins i).count)) [
      | inr few ↦
          subst (λ (u : JeTcache). IsEmpty (u.bins i)) (sym (if_false _ _ few))
            (low, ground (arith, low))
      | inl many ↦
          subst (λ (u : JeTcache). IsEmpty (u.bins i)) (sym (if_true _ _ many))
            (subst IsEmpty (sym (if_true _ _ (eq_refl i))) (low, low))
    ]

gc_bin-total :
    (i : ℕ) (t : JeTcache) → t.total_count < word → (gc_bin i t).total_count ≡ t.total_count
unfolding gc_bin
gc_bin-total i t lt = elim (Bool-cases (ltb ((t.bins i).low_water * 2 % word) (t.bins i).count)) [
  | inr few ↦ ap (λ (u : JeTcache). u.total_count) (if_false _ _ few)
  | inl many ↦ ap (λ (u : JeTcache). u.total_count) (if_true _ _ many) ∙ omega arith
]

gc_from-total :
    (i left : ℕ) (t : JeTcache)
    → t.total_count < word
    → (gc_from i left t).total_count ≡ t.total_count
unfolding gc_from
gc_from-total i zero t lt = refl
gc_from-total i (suc left) t lt =
    let first = gc_bin-total i t lt in
    gc_from-total (i + 1) left (gc_bin i t) (omega (arith, first, lt)) ∙ first

gc_from-IsEmpty :
    (i left j : ℕ) (t : JeTcache) → IsEmpty (t.bins j) → IsEmpty ((gc_from i left t).bins j)
unfolding gc_from
gc_from-IsEmpty i zero j t at = at
gc_from-IsEmpty i (suc left) j t at =
    gc_from-IsEmpty (i + 1) left j (gc_bin i t) (gc_bin_keeps IsEmpty i j t (λ b. (b.0, b.0)) at)

gc_from-empties :
    (i left j : ℕ) (t : JeTcache)
    → i ≤ j
    → j < i + left
    → (t.bins j).low_water ≡ 0
    → IsEmpty ((gc_from i left t).bins j)
unfolding gc_from
gc_from-empties i zero j t le lt low = absurd (omega arith)
gc_from-empties i (suc left) j t le lt low = elim (Bool-cases (i == j)) [
  | inl same ↦
      let made =
        subst (λ (k : ℕ). IsEmpty ((gc_bin i t).bins k)) (eq_of same)
          (gc_bin-empties i t
            (subst (λ (k : ℕ). (t.bins k).low_water ≡ 0) (sym (eq_of same)) low)) in
      gc_from-IsEmpty (i + 1) left j (gc_bin i t) made
  | inr other ↦
      gc_from-empties (i + 1) left j (gc_bin i t) (ground arith) (omega arith)
        (gc_bin_keeps (λ (b : JeTcacheBin). b.low_water ≡ 0) i j t (λ e. e) low)
]

gc-IsStuck :
    (t : JeTcache) → NoLowWater t → 4096 ≤ t.total_count → t.total_count < word → IsStuck (gc t)
unfolding gc
gc-IsStuck t low full small = record {
  empty = λ i lt. gc_from-empties 0 36 i t (omega arith) (omega arith) (low i lt);
  full = omega (arith, full, gc_from-total 0 36 t small);
}

gc-total : (t : JeTcache) → t.total_count < word → (gc t).total_count ≡ t.total_count
unfolding gc
gc-total t lt = gc_from-total 0 36 t lt

-- A bin of a stuck cache has nothing to hand out.
alloc_stuck : (i : ℕ) (t : JeTcache) → IsStuck t → je_tcache_alloc i t ≡ (none, t)
unfolding je_tcache_alloc
alloc_stuck i t stuck = elim (Bool-cases (leb 36 i)) [
  | inl outside ↦ if_true _ _ outside
  | inr inside ↦
      let (low, count) = stuck.empty i (ground arith) in
      let none_left : ltb (t.bins i).low_water (t.bins i).count ≡ false =
        ground (arith, low, count) in
      if_false _ _ inside ∙ if_false _ _ none_left
]

free-IsStuck :
    (i ptr : ℕ) (t : JeTcache)
    → IsStuck t
    → t.total_count + 1 < word
    → IsStuck (je_tcache_free i ptr t).1
      × ((je_tcache_free i ptr t).1.total_count ≤ t.total_count + 1)
unfolding je_tcache_free push_pointer
free-IsStuck i ptr t stuck small = elim (Bool-cases (leb 36 i)) [
  | inl outside ↦ rw outside (stuck, omega arith)
  | inr inside ↦
      let (low, count) = stuck.empty i (ground arith) in
      let room : ltb (t.bins i).count 4096 ≡ true = ground (arith, count) in
      let t1 = push_pointer i ptr t in
      let more : t1.total_count ≡ t.total_count + 1 = omega (arith, small) in
      let over : ltb 4096 t1.total_count ≡ true = let full = stuck.full in ground (arith, more) in
      let low1 : NoLowWater t1 = λ j lt. elim (Bool-cases (i == j)) [
        | inl same ↦ rw same low
        | inr other ↦ rw other (stuck.empty j lt).0
      ] in
      let stuck1 =
        gc-IsStuck t1 low1 (omega (arith, more, stuck.full)) (omega (arith, more, small)) in
      let total = gc-total t1 (omega (arith, more, small)) in
      let freed : je_tcache_free i ptr t ≡ (true, gc t1) =
        if_false _ _ inside
        ∙ if_true _ _ room
        ∙ ap (λ (u : JeTcache). (true, u)) (if_true _ _ over) in
      subst (λ (r : Bool × JeTcache). IsStuck r.1 × (r.1.total_count ≤ t.total_count + 1))
        (sym freed) (stuck1, omega (arith, total, more))
]

-- Calls of a thread on its cache.
pub data Call : Type 0 where
  alloc : (class_idx : ℕ) → Call
  free : (class_idx ptr : ℕ) → Call

abbrev pub call : Call → JeTcache → JeTcache
call (alloc i) t = (je_tcache_alloc i t).1
call (free i ptr) t = (je_tcache_free i ptr t).1

pub calls : List Call → JeTcache → JeTcache
calls [] t = t
calls (c ∷ cs) t = calls cs (call c t)

call-IsStuck :
    (c : Call) (t : JeTcache)
    → IsStuck t
    → t.total_count + 1 < word
    → IsStuck (call c t) × ((call c t).total_count ≤ t.total_count + 1)
call-IsStuck (alloc i) t stuck small =
    subst (λ (r : Option ℕ × JeTcache). IsStuck r.1 × (r.1.total_count ≤ t.total_count + 1))
      (sym (alloc_stuck i t stuck)) (stuck, omega arith)
call-IsStuck (free i ptr) t stuck small = free-IsStuck i ptr t stuck small

calls-IsStuck :
    (cs : List Call) (t : JeTcache)
    → IsStuck t
    → t.total_count + length cs < word
    → IsStuck (calls cs t)
unfolding calls
calls-IsStuck [] t stuck small = stuck
calls-IsStuck (c ∷ cs) t stuck small =
    let (next, total) = call-IsStuck c t stuck (omega arith) in
    calls-IsStuck cs (call c t) next (omega (arith, total, small))

-- gc of a cache whose low waters are 0, as its constructor sets them, and whose total_count has reached
-- 4096: the bins are empty, and after any further calls they are empty again, so that no alloc finds an
-- entry there. total_count and the number of the calls together are below 2^64.
pub calls-gc :
    (cs : List Call) (t : JeTcache) (class_idx : ℕ)
    → NoLowWater t
    → 4096 ≤ t.total_count
    → t.total_count + length cs < word
    → IsStuck (calls cs (gc t))
      × (je_tcache_alloc class_idx (calls cs (gc t)) ≡ (none, calls cs (gc t)))
calls-gc cs t class_idx low full small =
    let total = gc-total t (omega arith) in
    let stuck =
      calls-IsStuck cs (gc t) (gc-IsStuck t low full (omega arith)) (omega (arith, total, small)) in
    (stuck, alloc_stuck class_idx (calls cs (gc t)) stuck)
