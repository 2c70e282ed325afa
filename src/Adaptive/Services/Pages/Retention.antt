-- ===== src/Adaptive/Services/Pages/Retention.antt =====
-- Which pages release_empty_locked of src/adaptive_services.cpp keeps.
use my_malloc.Prelude.{
  eq_refl, eq_of, ne_of, ℕ, zero, suc, ◌+◌, ◌-◌, ◌≤◌, ◌≡◌, ◌≢◌, refl, sym, ◌∙◌, ap, ◌⊎◌, inl, inr,
  Bool, true, false, none, some, List, [], ◌∷◌, arith, ltb, ◌==◌, if◌then◌else◌, Bool-cases,
  Option-cases,
}
use my_malloc.Adaptive.Types.{StorageId, size_class, span, direct_map, no_storage, unnamed_storage}
use my_malloc.Adaptive.Telemetry.{adaptive_telemetry_on_empty_counts}
use my_malloc.Adaptive.Services.Sizes.{adaptive_small_class_count, adaptive_medium_class_count}
use my_malloc.Adaptive.Services.State.{Services, AdaptivePage, unlink, count_event}
use my_malloc.Adaptive.Services.Pages.{
  set_pool, pool_head_for, on_chain, first_empty, count_empty_locked, release_loop,
  release_page_locked, release_empty_locked,
}

-- A page without live blocks.
abbrev pub is_empty : ℕ → Services → Bool
is_empty page s = (s.pages page).live_count == 0

set_pool-pages :
    (id : StorageId) (c : ℕ) (pages : List ℕ) (s : Services)
    → (set_pool id c pages s).pages ≡ s.pages
unfolding set_pool
set_pool-pages size_class c pages s = refl
set_pool-pages span c pages s = refl
set_pool-pages direct_map c pages s = refl
set_pool-pages no_storage c pages s = refl
set_pool-pages (unnamed_storage k) c pages s = refl

if_some {ℓ} :
    {A : Type ℓ}
    → (b : Bool) (x y z : A) → (if b then some x else none) ≡ some y
    → (if b then some z else none) ≡ some z
if_some true x y z h = refl
if_some false x y z h = absurd (cc h)

-- The chain that was written is the one that is read.
pool_head_for-set_pool :
    (id : StorageId) (c : ℕ) (head pages : List ℕ) (s : Services)
    → pool_head_for id c s ≡ some head
    → pool_head_for id c (set_pool id c pages s) ≡ some pages
unfolding set_pool pool_head_for
pool_head_for-set_pool size_class c head pages s h =
    rw (eq_refl c) (if_some (ltb c adaptive_small_class_count) (s.small_pages c) head pages h)
pool_head_for-set_pool span c head pages s h =
    rw (eq_refl c) (if_some (ltb c adaptive_medium_class_count) (s.medium_pages c) head pages h)
pool_head_for-set_pool direct_map c head pages s h = absurd (cc h)
pool_head_for-set_pool no_storage c head pages s h = absurd (cc h)
pool_head_for-set_pool (unnamed_storage k) c head pages s h = absurd (cc h)

count_empty_same :
    (head : List ℕ) (s s' : Services)
    → s'.pages ≡ s.pages
    → count_empty_locked head s' ≡ count_empty_locked head s
unfolding count_empty_locked
count_empty_same [] s s' e = refl
count_empty_same (page ∷ rest) s s' e = rw (count_empty_same rest s s' e, e) refl

-- A page with live blocks is not one without.
live_apart : (page t : ℕ) (s : Services) → is_empty page s ≡ false → is_empty t s ≡ true → page ≢ t
live_apart page t s e f same = absurd (cc (same, e, f))

-- The first empty page of a chain, and what the chain is without it.
FirstEmpty : List ℕ → Services → ℕ → Type 0
unfolding count_empty_locked first_empty
FirstEmpty head s t =
    (first_empty head s ≡ some t)
    × (is_empty t s ≡ true)
    × (count_empty_locked head s ≡ 1 + count_empty_locked (unlink t head) s)

first_later :
    (page t : ℕ) (rest : List ℕ) (s : Services)
    → is_empty page s ≡ false
    → FirstEmpty rest s t
    → FirstEmpty (page ∷ rest) s t
unfolding FirstEmpty count_empty_locked first_empty unlink
first_later page t rest s e (first, empty, count) = (
  rw e first,
  empty,
  rw (e, ne_of (live_apart page t s e empty), count_empty_locked, e) (omega (arith, count)),
)

-- Where there is an empty page, the first one is found; without it one fewer is left.
find_empty :
    (head : List ℕ) (s : Services) → 1 ≤ count_empty_locked head s → (t : ℕ) × FirstEmpty head s t
unfolding FirstEmpty count_empty_locked first_empty unlink
find_empty [] s h = absurd (omega arith)
find_empty (page ∷ rest) s h = elim (Bool-cases (is_empty page s)) [
  | inl e ↦ (page, (rw e refl, e, rw (e, eq_refl page) refl))
  | inr e ↦
      let later : 1 ≤ count_empty_locked rest s = omega (arith, rw e at h) in
      let (t, found) = find_empty rest s later in (t, first_later page t rest s e found)
]

on_chain-unlink : (p t : ℕ) (head : List ℕ) → t ≢ p → on_chain p (unlink t head) ≡ on_chain p head
unfolding on_chain unlink
on_chain-unlink p t [] ne = refl
on_chain-unlink p t (page ∷ rest) ne = elim (Bool-cases (page == t)) [
  | inl e ↦ rw (e, ne_of (λ (q : page ≡ p). ne (sym (eq_of e) ∙ q))) refl
  | inr e ↦ rw (e, on_chain-unlink p t rest ne) refl
]

-- The state after n pages without live blocks were released from a chain.
pub record Released (id : StorageId) (c n : ℕ) (s s' : Services) (head : List ℕ) : Type 0 where
  pub left : List ℕ
  pub chain : pool_head_for id c s' ≡ some left
  pub fewer : count_empty_locked left s' + n ≡ count_empty_locked head s
  pub same_pages : s'.pages ≡ s.pages
  pub live_kept : (p : ℕ) → is_empty p s ≡ false → on_chain p left ≡ on_chain p head

-- pool_head_for reads nothing but the chains.
pool_head_same :
    (id : StorageId) (c : ℕ) (s s' : Services)
    → s'.small_pages ≡ s.small_pages
    → s'.medium_pages ≡ s.medium_pages
    → pool_head_for id c s' ≡ pool_head_for id c s
unfolding pool_head_for
pool_head_same size_class c s s' small medium = rw small refl
pool_head_same span c s s' small medium = rw medium refl
pool_head_same direct_map c s s' small medium = refl
pool_head_same no_storage c s s' small medium = refl
pool_head_same (unnamed_storage k) c s s' small medium = refl

-- An empty page is taken off the chain, and no page changes.
release_page_lem :
    (id : StorageId) (c : ℕ) (head : List ℕ) (page : ℕ) (s : Services)
    → is_empty page s ≡ true
    → pool_head_for id c s ≡ some head
    → (pool_head_for id c (release_page_locked id c head page s) ≡ some (unlink page head))
      × ((release_page_locked id c head page s).pages ≡ s.pages)
unfolding release_page_locked
release_page_lem id c head page s e known = rw e (
  pool_head_same id c (set_pool id c (unlink page head) s) _ refl refl
      ∙ pool_head_for-set_pool id c head (unlink page head) s known,
  set_pool-pages id c _ s,
)

-- One page released before n others.
release_step :
    (id : StorageId) (c n page : ℕ) (s s1 s' : Services) (head : List ℕ)
    → is_empty page s ≡ true
    → count_empty_locked head s ≡ 1 + count_empty_locked (unlink page head) s
    → s1.pages ≡ s.pages
    → Released id c n s1 s' (unlink page head)
    → Released id c (suc n) s s' head
release_step id c n page s s1 s' head empty count pages rest = record {
  left = rest.left;
  chain = rest.chain;
  fewer =
      let same = count_empty_same (unlink page head) s s1 pages in
      omega (arith, rest.fewer, same, count);
  same_pages = rest.same_pages ∙ pages;
  live_kept = λ p live.
      rest.live_kept p (ap (λ (f : ℕ → AdaptivePage). (f p).live_count == 0) pages ∙ live)
      ∙ on_chain-unlink p page head (λ (q : page ≡ p). live_apart p page s live empty (sym q));
}

release_loop-Released :
    (id : StorageId) (c excess : ℕ) (s : Services) (head : List ℕ)
    → pool_head_for id c s ≡ some head
    → excess ≤ count_empty_locked head s
    → Released id c excess s (release_loop id c excess s) head
unfolding release_loop FirstEmpty
release_loop-Released id c zero s head known h = record {
  left = head;
  chain = known;
  fewer = omega arith;
  same_pages = refl;
  live_kept = λ p live. refl;
}
release_loop-Released id c (suc excess) s head known h =
    let (page, (first, empty, count)) = find_empty head s (omega arith) in
    let s1 = release_page_locked id c head page s in
    let released = release_page_lem id c head page s empty known in
    let same = count_empty_same (unlink page head) s s1 released.1 in
    let rest =
      release_loop-Released id c excess s1 (unlink page head) released.0
        (omega (arith, same, count)) in
    rw (known, release_loop, first, known)
      (release_step id c excess page s s1 _ head empty count released.1 rest)

-- A chain that holds at most keep empty pages, and every page with live blocks that it held.
pub record Kept (id : StorageId) (c keep : ℕ) (s s' : Services) (head : List ℕ) : Type 0 where
  pub left : List ℕ
  pub chain : pool_head_for id c s' ≡ some left
  pub bounded : count_empty_locked left s' ≤ keep
  pub no_more :
      count_empty_locked left s' + (count_empty_locked head s - keep) ≡ count_empty_locked head s
  pub same_pages : s'.pages ≡ s.pages
  pub live_kept : (p : ℕ) → is_empty p s ≡ false → on_chain p left ≡ on_chain p head

retain :
    (id : StorageId) (c keep : ℕ) (s s0 s' : Services) (head : List ℕ)
    → s0.pages ≡ s.pages
    → Released id c (count_empty_locked head s - keep) s0 s' head
    → Kept id c keep s s' head
retain id c keep s s0 s' head pages r =
    let same = count_empty_same head s s0 pages in
    record {
      left = r.left;
      chain = r.chain;
      bounded = omega (arith, r.fewer, same);
      no_more = r.fewer ∙ same;
      same_pages = r.same_pages ∙ pages;
      live_kept = λ p live.
          r.live_kept p (ap (λ (f : ℕ → AdaptivePage). (f p).live_count == 0) pages ∙ live);
    }

-- For a storage id and class with a chain, release_empty_locked leaves a chain with at most keep
-- pages without live blocks, and releases only as many of them as there were above keep. A page
-- with live blocks is on the chain afterwards just when it was before, and no page structure
-- changes. For a storage id or class without a chain the call changes nothing.
pub release_empty_locked_lem :
    (id : StorageId) (c keep : ℕ) (s : Services)
    → ((pool_head_for id c s ≡ none) × (release_empty_locked id c keep s ≡ s))
      ⊎ ((head : List ℕ) × (pool_head_for id c s ≡ some head)
          × Kept id c keep s (release_empty_locked id c keep s) head)
unfolding release_empty_locked
release_empty_locked_lem id c keep s = elim (Option-cases (pool_head_for id c s)) [
  | inl e ↦ inl (e, rw (e, release_empty_locked) refl)
  | inr (head, e) ↦
      let empty = count_empty_locked head s in
      let s0 = count_event (adaptive_telemetry_on_empty_counts id empty) s in
      let known : pool_head_for id c s0 ≡ some head = pool_head_same id c s s0 refl refl ∙ e in
      let same = count_empty_same head s s0 refl in
      let r = release_loop-Released id c (empty - keep) s0 head known (omega (arith, same)) in
      inr (head, e, rw (e, release_empty_locked) (retain id c keep s s0 _ head refl r))
]
