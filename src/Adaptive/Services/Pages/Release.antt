-- ===== src/Adaptive/Services/Pages/Release.antt =====
-- Giving empty pages of src/adaptive_services.cpp back to the system touches no header.
use my_malloc.Prelude.{
  ℕ, zero, suc, ◌≡◌, refl, ◌∙◌, ◌⊎◌, inl, inr, not, ◌||◌, none, some, List, ◌==◌, Bool-cases,
  Option-cases,
}
use my_malloc.Adaptive.Types.{StorageId, size_class, span, direct_map, no_storage, unnamed_storage}
use my_malloc.Adaptive.Services.State.{Services}
use my_malloc.Adaptive.Services.Pages.{
  set_pool, pool_head_for, pool_or_empty, on_chain, first_empty, release_loop, release_page_locked,
  release_target_empty_locked, release_empty_locked,
}

set_pool-headers :
    (id : StorageId) (c : ℕ) (pages : List ℕ) (s : Services)
    → (set_pool id c pages s).headers ≡ s.headers
unfolding set_pool
set_pool-headers size_class c pages s = refl
set_pool-headers span c pages s = refl
set_pool-headers direct_map c pages s = refl
set_pool-headers no_storage c pages s = refl
set_pool-headers (unnamed_storage k) c pages s = refl

release_page-headers :
    (id : StorageId) (c : ℕ) (head : List ℕ) (target : ℕ) (s : Services)
    → (release_page_locked id c head target s).headers ≡ s.headers
unfolding release_page_locked
release_page-headers id c head target s = elim (Bool-cases ((s.pages target).live_count == 0)) [
  | inl e ↦ rw e (set_pool-headers id c _ s)
  | inr e ↦ rw e refl
]

release_loop-headers :
    (id : StorageId) (c excess : ℕ) (s : Services)
    → (release_loop id c excess s).headers ≡ s.headers
unfolding release_loop
release_loop-headers id c zero s = refl
release_loop-headers id c (suc excess) s =
    elim (Option-cases (first_empty (pool_or_empty (pool_head_for id c s)) s)) [
      | inl e ↦ rw (e, release_loop) refl
      | inr (page, e) ↦
          rw (e, release_loop)
            (release_loop-headers id c excess _ ∙ release_page-headers id c _ page s)
    ]

pub release_empty-headers :
    (id : StorageId) (c keep : ℕ) (s : Services)
    → (release_empty_locked id c keep s).headers ≡ s.headers
unfolding release_empty_locked
release_empty-headers id c keep s = elim (Option-cases (pool_head_for id c s)) [
  | inl e ↦ rw (e, release_empty_locked) refl
  | inr (head, e) ↦ rw (e, release_empty_locked) (release_loop-headers id c _ _)
]

pub release_target-headers :
    (id : StorageId) (c target : ℕ) (s : Services)
    → (release_target_empty_locked id c target s ≡ none)
      ⊎ ((s' : Services) × (release_target_empty_locked id c target s ≡ some s')
          × (s'.headers ≡ s.headers))
unfolding release_target_empty_locked
release_target-headers id c target s = elim (Option-cases (pool_head_for id c s)) [
  | inl e ↦ rw (e, release_target_empty_locked) (inl refl)
  | inr (head, e) ↦
      elim (Bool-cases (not ((s.pages target).live_count == 0) || not (on_chain target head))) [
        | inl refused ↦ rw (e, release_target_empty_locked, refused) (inl refl)
        | inr accepted ↦
            rw (e, release_target_empty_locked, accepted)
              (inr (_, refl, release_page-headers id c head target s))
      ]
]
