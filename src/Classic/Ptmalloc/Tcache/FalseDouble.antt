-- ===== src/Classic/Ptmalloc/Tcache/FalseDouble.antt =====
-- The test for a double free in pt_free of classic/ptmalloc/ptmalloc.cpp reads a word of the user.
use my_malloc.Prelude.{
  ℕ, ◌+◌, ◌-◌, ◌/◌, ◌%◌, ◌^◌, ◌<◌, ◌≤◌, ◌≡◌, ◌≢◌, refl, true, false, arith, ltb, leb, ◌==◌, ne_of,
  ==_of, word, put, sym, ◌∙◌, ap, if_true, if_false, ◌∷◌, some, List, inl, inr, Bool-cases, eq_of,
  ne_from,
}
use my_malloc.Classic.Ptmalloc.Chunk.{
  Chunks, chunk_size, is_mmapped, user_data, from_user_ptr, csize2tidx,
}
use my_malloc.Classic.Ptmalloc.Tcache.{
  Tcache, take_entry, tcache_alloc, put_entry, tcache_free, cached, double_free, free_to_tcache,
  pt_free_cached,
}

-- The bin of a size that a thread keeps.
tcache_idx : (sz : ℕ) → 32 ≤ sz → sz ≤ 1040 → csize2tidx sz ≡ sz / 16 - 2
unfolding csize2tidx
tcache_idx sz low high =
    let offset : (sz / 16 + (word - 2)) % word % 2 ^ 32 ≡ sz / 16 - 2 = omega arith in
    let below : ltb (sz / 16 - 2) 64 ≡ true = ground arith in rw (offset, below) refl

-- The program writes v into the second word of the block at e.
abbrev pub write_word : (e v : ℕ) → Tcache → Tcache
write_word e v t = record t { chunk_key = put t.chunk_key e v }

-- The bins t1 are t with the block e in front of bin idx, and counted there.
pub record IsCached (idx e : ℕ) (t t1 : Tcache) : Type 0 where
  pub first : t1.bins idx ≡ e ∷ t.bins idx
  pub counted : t1.count idx ≡ t.count idx + 1
  pub others : (i : ℕ) → i ≢ idx → (t1.bins i ≡ t.bins i) × (t1.count i ≡ t.count i)

put_self : {A : Type 0} → (f : ℕ → A) (i : ℕ) (v : A) → put f i v i ≡ v
put_self f i v = if_true v (f i) (==_of refl)

put_other : {A : Type 0} → (f : ℕ → A) (i j : ℕ) (v : A) → j ≢ i → put f i v j ≡ f j
put_other f i j v ne = if_false v (f j) (ne_of λ e. ne (sym e))

put_entry-IsCached :
    (idx p : ℕ) (t : Tcache) → t.count idx < 7 → IsCached idx (user_data p) t (put_entry idx p t)
unfolding put_entry
put_entry-IsCached idx p t room = record {
  first = put_self t.bins idx (user_data p ∷ t.bins idx);
  counted = put_self t.count idx ((t.count idx + 1) % 2 ^ 32) ∙ omega (arith, room);
  others = λ i ne. (
    put_other t.bins idx i (user_data p ∷ t.bins idx) ne,
    put_other t.count idx i ((t.count idx + 1) % 2 ^ 32) ne,
  );
}

module _ (p sz : ℕ) (m : Chunks) (inside : p + 48 < word) (size : chunk_size (m p) ≡ sz)
    (unit : sz % 16 ≡ 0) (low : 32 ≤ sz) (high : sz ≤ 1040) (heap : is_mmapped (m p) ≡ false) where
  -- The guards before the bins are passed.
  to_tcache : (t : Tcache) → pt_free_cached (user_data p) m (some t) ≡ free_to_tcache p sz (some t)
  unfolding pt_free_cached
  to_tcache t =
      let back : from_user_ptr (user_data p) ≡ p = omega arith in
      let here : (user_data p == 0) ≡ false = ground arith in
      let big : ltb sz 32 ≡ false = ground arith in
      let whole : (sz % 16 == 0) ≡ true = ==_of unit in rw (here, back, size, big, whole, heap) refl

  free_set :
      (t : Tcache)
      → t.chunk_key (user_data p) ≢ 0
      → pt_free_cached (user_data p) m (some t) ≡ double_free
  unfolding free_to_tcache
  free_set t set =
      let idx = tcache_idx sz low high in
      let few : leb sz 1040 ≡ true = ground arith in
      let bin : ltb (sz / 16 - 2) 64 ≡ true = ground arith in
      to_tcache t ∙ rw (few, idx, bin, ne_of set) refl

  free_clear :
      (t : Tcache)
      → t.chunk_key (user_data p) ≡ 0
      → t.count (sz / 16 - 2) < 7
      → pt_free_cached (user_data p) m (some t) ≡ cached (put_entry (sz / 16 - 2) p t)
  unfolding free_to_tcache tcache_free
  free_clear t clear room =
      let idx = tcache_idx sz low high in
      let few : leb sz 1040 ≡ true = ground arith in
      let bin : ltb (sz / 16 - 2) 64 ≡ true = ground arith in
      let bin' : leb 64 (sz / 16 - 2) ≡ false = ground arith in
      let free : leb 7 (t.count (sz / 16 - 2)) ≡ false = ground arith in
      to_tcache t ∙ rw (few, idx, bin, clear, bin', free) refl

-- The next allocation of the size takes the first block out again.
alloc_first :
    (idx e : ℕ) (rest : List ℕ) (t : Tcache)
    → idx < 64
    → t.bins idx ≡ e ∷ rest
    → tcache_alloc idx t ≡ (some (user_data (from_user_ptr e)), take_entry idx e rest t)
unfolding tcache_alloc
alloc_first idx e rest t lt first =
    let bin : leb 64 idx ≡ false = ground arith in
    rw (bin, tcache_alloc) (rw (first, tcache_alloc) refl)

bins-take_entry :
    (idx e : ℕ) (t t1 : Tcache)
    → IsCached idx e t t1
    → (i : ℕ) → (take_entry idx e (t.bins idx) t1).bins i ≡ t.bins i
unfolding take_entry
bins-take_entry idx e t t1 is i = elim (Bool-cases (idx == i)) [
  | inl same ↦ rw same (ap t.bins (eq_of same))
  | inr other ↦ rw other (is.others i (λ h. ne_from other (sym h))).0
]

-- For the block of a chunk of 32 to 1040 bytes that is not mmapped, with fewer than seven entries in its
-- bin and 0 in the second word of the block: pt_free puts the block in front of its bin and changes no
-- other bin, and a second pt_free of it is found to be a double free. The next allocation of the size
-- returns the block and leaves the bins as they were before. If the program then writes a value other than
-- 0 into that word, its pt_free of the block is taken for a double free as well and ignored.
pub pt_free_cached_lem :
    (p sz written : ℕ) (m : Chunks) (t : Tcache)
    → p + 48 < word
    → chunk_size (m p) ≡ sz
    → sz % 16 ≡ 0
    → 32 ≤ sz
    → sz ≤ 1040
    → is_mmapped (m p) ≡ false
    → t.count (sz / 16 - 2) < 7
    → t.chunk_key (user_data p) ≡ 0
    → p ≢ 0
    → written ≢ 0
    → let e = user_data p in
      let idx = sz / 16 - 2 in
      (t1 : Tcache) × (t2 : Tcache) × (pt_free_cached e m (some t) ≡ cached t1)
      × IsCached idx e t t1
      × (pt_free_cached e m (some t1) ≡ double_free)
      × (tcache_alloc idx t1 ≡ (some e, t2))
      × ((i : ℕ) → t2.bins i ≡ t.bins i)
      × (pt_free_cached e m (some (write_word e written t2)) ≡ double_free)
unfolding put_entry
pt_free_cached_lem p sz written m t inside size unit low high heap room clear pos set =
    let e = user_data p in
    let idx = sz / 16 - 2 in
    let t1 = put_entry idx p t in
    let t2 = take_entry idx e (t.bins idx) t1 in
    let is = put_entry-IsCached idx p t room in
    let back : user_data (from_user_ptr e) ≡ e = omega arith in
    let twice = free_set p sz m inside size unit low high heap in
    (
      t1,
      t2,
      free_clear p sz m inside size unit low high heap t clear room,
      is,
      twice t1 (λ h. pos (sym (put_self t.chunk_key e p) ∙ h)),
      alloc_first idx e (t.bins idx) t1 (omega (arith, high)) is.first
          ∙ ap (λ q. (some q, t2)) back,
      bins-take_entry idx e t t1 is,
      twice (write_word e written t2) (λ h. set (sym (put_self t2.chunk_key e written) ∙ h)),
    )
