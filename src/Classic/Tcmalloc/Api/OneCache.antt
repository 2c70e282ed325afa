-- ===== src/Classic/Tcmalloc/Api/OneCache.antt =====
-- Calls of classic/tcmalloc/tcmalloc.cpp by any threads, one after the other: pthread_once runs tc_init
-- in the first of them alone, so that no second thread gets a cache.
use my_malloc.Prelude.{
  put, ℕ, ◌+◌, ◌-◌, ◌*◌, ◌/◌, ◌%◌, ◌≤◌, ◌≡◌, ◌≢◌, refl, sym, ◌∙◌, ap, ◌⊎◌, inl, inr, Bool, true,
  false, not, ◌&&◌, arith, Option, none, some, List, ltb, leb, ◌==◌, if◌then◌else◌, Bool-cases,
  Option-cases, if_true, eq_of, ne_from, subst, bit_and, word,
}
use my_malloc.Classic.Tcmalloc.SizeClasses.{k_max_size, at_least_one}
use my_malloc.Classic.Tcmalloc.PageHeap.{Mapping}
use my_malloc.Classic.Tcmalloc.PageHeap.Valid.{put_other}
use my_malloc.Classic.Tcmalloc.ThreadCache.{ThreadCache}
use my_malloc.Classic.Tcmalloc.Api.{
  Tcmalloc, initial_state, tc_init, tc_init_allocator, tc_usable_size, tc_free, cached,
}
use my_malloc.Classic.Tcmalloc.Api.Malloc.{
  memcpy, malloc_small, tc_malloc, zeroed, tc_calloc, moved, tc_realloc, tc_memalign,
}
use my_malloc.Classic.Tcmalloc.Api.Owners.{
  has, SameOwners, owners_refl, owners_trans, Ends, tc_free_owners, tc_large_alloc_owners,
  tc_malloc_owners,
}

module _ (mmap : List Mapping → (size : ℕ) → Option ℕ) (aligned_alloc : ℕ → Bool) where
  -- A call by a thread, from a state to the next.
  pub data Step (s : Tcmalloc) : Tcmalloc → Type 0 where
    malloc :
        (thread size : ℕ) (p : Option ℕ) {s' : Tcmalloc}
        → tc_malloc mmap aligned_alloc thread size s ≡ some (p, s')
        → Step s s'
    free : (thread : ℕ) (ptr : Option ℕ) → Step s (tc_free thread ptr s)
    calloc :
        (thread n size : ℕ) (p : Option ℕ) {s' : Tcmalloc}
        → tc_calloc mmap aligned_alloc thread n size s ≡ some (p, s')
        → Step s s'
    realloc :
        (thread : ℕ) (ptr : Option ℕ) (size : ℕ) (p : Option ℕ) {s' : Tcmalloc}
        → tc_realloc mmap aligned_alloc thread ptr size s ≡ some (p, s')
        → Step s s'
    memalign :
        (thread alignment size : ℕ) (p : Option ℕ) {s' : Tcmalloc}
        → tc_memalign mmap aligned_alloc thread alignment size s ≡ some (p, s')
        → Step s s'

  pub data Run (memory : ℕ → ℕ) : Tcmalloc → Type 0 where
    start : Run memory (initial_state memory)
    later : {s t : Tcmalloc} → Run memory s → Step s t → Run memory t

  -- Before the first call no thread has a cache, and later one at most.
  pub record OneCache (s : Tcmalloc) : Type 0 where
    pub fresh : s.once ≡ false → (b : ℕ) → has (s.caches b) ≡ false
    pub single : (a b : ℕ) → a ≢ b → has (s.caches a) ≡ true → has (s.caches b) ≡ false

  same-OneCache : {s s' : Tcmalloc} → SameOwners s s' → OneCache s → OneCache s'
  same-OneCache same one = record {
    fresh = λ e b. same.owner b ∙ one.fresh (sym same.once ∙ e) b;
    single = λ a b ne owns. same.owner b ∙ one.single a b ne (sym (same.owner a) ∙ owns);
  }

  init-OneCache :
      (memory : Bool) (thread : ℕ) (s : Tcmalloc)
      → OneCache s
      → OneCache (tc_init_allocator memory thread s)
  unfolding tc_init_allocator tc_init
  init-OneCache memory thread s one = elim (Bool-cases s.once) [
    | inl done ↦ subst OneCache (sym (if_true s _ done)) one
    | inr first ↦
        let put' = put s.caches thread (cached (s.caches thread) memory) in
        let other : (b : ℕ) → b ≢ thread → has (put' b) ≡ false = λ b ne.
          ap has (put_other s.caches thread b (cached (s.caches thread) memory) (λ e. ne (sym e)))
          ∙ one.fresh first b in
        rw first record {
          fresh = λ e. absurd (cc e);
          single = λ a b ne owns. elim (Bool-cases (b == thread)) [
            | inr apart ↦ other b (ne_from apart)
            | inl same ↦ absurd (cc (other a (λ e. ne (e ∙ sym (eq_of same))), owns))
          ];
        }
  ]

  -- A call changes the owners by its first step at most.
  abbrev Changes : (thread : ℕ) → (s s' : Tcmalloc) → Type 0
  Changes thread s s' =
      SameOwners s s' ⊎ SameOwners (tc_init_allocator (aligned_alloc thread) thread s) s'

  changed-OneCache : (thread : ℕ) {s s' : Tcmalloc} → Changes thread s s' → OneCache s → OneCache s'
  changed-OneCache thread (inl same) one = same-OneCache same one
  changed-OneCache thread {s = s} (inr same) one =
      same-OneCache same (init-OneCache (aligned_alloc thread) thread s one)

  ended :
      (thread : ℕ) (s : Tcmalloc) (o : Option (Option ℕ × Tcmalloc))
      → Ends (Changes thread s) o
      → (p : Option ℕ) (s' : Tcmalloc) → o ≡ some (p, s')
      → Changes thread s s'
  ended thread s o all p s' e = subst (Ends (Changes thread s)) e all

  malloc-Changes :
      (thread size : ℕ) (s : Tcmalloc)
      → Ends (Changes thread s) (tc_malloc mmap aligned_alloc thread size s)
  malloc-Changes thread size s =
      second (tc_malloc mmap aligned_alloc thread size s)
        (tc_malloc_owners mmap aligned_alloc thread size s)
    where
      second :
          (o : Option (Option ℕ × Tcmalloc))
          → Ends (SameOwners (tc_init_allocator (aligned_alloc thread) thread s)) o
          → Ends (Changes thread s) o
      second none same = tt
      second (some (p, s')) same = inr same

  then_same :
      (thread : ℕ) {s s1 s2 : Tcmalloc}
      → Changes thread s s1
      → SameOwners s1 s2
      → Changes thread s s2
  then_same thread (inl first) same = inl (owners_trans first same)
  then_same thread (inr first) same = inr (owners_trans first same)

  zeroed_owners : (total : ℕ) (p : Option ℕ) (s : Tcmalloc) → SameOwners s (zeroed total p s).1
  zeroed_owners total none s = owners_refl s
  zeroed_owners total (some p) s = record { once = refl; owner = λ b. refl }

  moved_owners :
      (thread ptr bytes : ℕ) (np : Option ℕ) (s : Tcmalloc)
      → SameOwners s (moved thread ptr bytes np s).1
  moved_owners thread ptr bytes none s = owners_refl s
  moved_owners thread ptr bytes (some np) s =
      owners_trans {s = s} {t = memcpy np ptr bytes s} record { once = refl; owner = λ b. refl }
        (tc_free_owners thread (some ptr) (memcpy np ptr bytes s))

  -- The branches of a call.
  Changes-if :
      (thread : ℕ) (s : Tcmalloc) (b : Bool) (o o' : Option (Option ℕ × Tcmalloc))
      → Ends (Changes thread s) o
      → Ends (Changes thread s) o'
      → Ends (Changes thread s) (if b then o else o')
  Changes-if thread s true o o' one other = one
  Changes-if thread s false o o' one other = other

  calloc-Changes :
      (thread n size : ℕ) (s : Tcmalloc)
      → Ends (Changes thread s) (tc_calloc mmap aligned_alloc thread n size s)
  unfolding tc_calloc
  calloc-Changes thread n size s =
      let total = n * size % word in
      Changes-if thread s (not (n == 0) && not (total / n == size)) _ _ (inl (owners_refl s))
        (elim (Option-cases (tc_malloc mmap aligned_alloc thread total s)) [
          | inl e ↦ rw (e, tc_calloc) tt
          | inr ((p, s1), e) ↦
              let all = malloc-Changes thread total s in
              rw (e, tc_calloc)
                (then_same thread {s = s} (ended thread s _ all p s1 e) (zeroed_owners total p s1))
        ])

  realloc-Changes :
      (thread : ℕ) (ptr : Option ℕ) (size : ℕ) (s : Tcmalloc)
      → Ends (Changes thread s) (tc_realloc mmap aligned_alloc thread ptr size s)
  unfolding tc_realloc
  realloc-Changes thread none size s = malloc-Changes thread size s
  realloc-Changes thread (some ptr) size s =
      let old_size = tc_usable_size (some ptr) s in
      let bytes = if ltb old_size size then old_size else size in
      Changes-if thread s (size == 0) _ _ (inl (tc_free_owners thread (some ptr) s)) (
        Changes-if thread s (leb size old_size) _ _ (inl (owners_refl s))
          (elim (Option-cases (tc_malloc mmap aligned_alloc thread size s)) [
            | inl e ↦ rw (e, tc_realloc) tt
            | inr ((p, s1), e) ↦
                let all = malloc-Changes thread size s in
                rw (e, tc_realloc)
                  (then_same thread {s = s} (ended thread s _ all p s1 e)
                    (moved_owners thread ptr bytes p s1))
          ]))

  memalign-Changes :
      (thread alignment size : ℕ) (s : Tcmalloc)
      → Ends (Changes thread s) (tc_memalign mmap aligned_alloc thread alignment size s)
  unfolding tc_memalign
  memalign-Changes thread alignment size s =
      Changes-if thread s (leb alignment 16) _ _ (malloc-Changes thread size s) (
        Changes-if thread s (not (bit_and alignment ((alignment + (word - 1)) % word) == 0)) _ _
          (inl (owners_refl s)) (inl (tc_large_alloc_owners mmap ((size + alignment) % word) s)))

  step-OneCache : {s s' : Tcmalloc} → Step s s' → OneCache s → OneCache s'
  step-OneCache {s = s} (malloc thread size p e) one =
      changed-OneCache thread (ended thread s _ (malloc-Changes thread size s) p _ e) one
  step-OneCache {s = s} (free thread ptr) one = same-OneCache (tc_free_owners thread ptr s) one
  step-OneCache {s = s} (calloc thread n size p e) one =
      changed-OneCache thread (ended thread s _ (calloc-Changes thread n size s) p _ e) one
  step-OneCache {s = s} (realloc thread ptr size p e) one =
      changed-OneCache thread (ended thread s _ (realloc-Changes thread ptr size s) p _ e) one
  step-OneCache {s = s} (memalign thread alignment size p e) one =
      changed-OneCache thread (ended thread s _ (memalign-Changes thread alignment size s) p _ e)
        one

  pub run-OneCache : (memory : ℕ → ℕ) {s : Tcmalloc} → Run memory s → OneCache s
  run-OneCache memory start = record { fresh = λ e b. refl; single = λ a b ne owns. refl }
  run-OneCache memory (later run step) = step-OneCache step (run-OneCache memory run)

  has_some : (o : Option ThreadCache) → has o ≡ false → o ≡ none
  has_some none e = refl
  has_some (some t) e = absurd (cc e)

  once_first : {s : Tcmalloc} (a : ℕ) → OneCache s → has (s.caches a) ≡ true → s.once ≡ true
  once_first {s = s} a one owns = elim (Bool-cases s.once) [
    | inl done ↦ done
    | inr first ↦ absurd (cc (one.fresh first a, owns))
  ]

  -- After any calls of any threads, one after the other: where a thread has a cache, no other thread
  -- gets a block of up to 256 KiB. tc_malloc returns null there and changes nothing.
  pub tc_malloc-other :
      (memory : ℕ → ℕ) (s : Tcmalloc) (a b size : ℕ)
      → Run memory s
      → has (s.caches a) ≡ true
      → a ≢ b
      → size ≤ k_max_size
      → tc_malloc mmap aligned_alloc b size s ≡ some (none, s)
  unfolding tc_malloc tc_init_allocator malloc_small
  tc_malloc-other memory s a b size run owns ne small =
      let one = run-OneCache memory run in
      let done = once_first a one owns in
      let without = has_some (s.caches b) (one.single a b ne owns) in
      let few : ltb k_max_size (at_least_one size) ≡ false = ground arith in
      rw (done, few) (rw (without, malloc_small) refl)
