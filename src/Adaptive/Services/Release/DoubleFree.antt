-- ===== src/Adaptive/Services/Release/DoubleFree.antt =====
-- A pooled block of src/adaptive_services.cpp that is freed is no longer found by its user pointer.
use my_malloc.Prelude.{
  eq_refl, ne_of, ℕ, ◌-◌, ◌≡◌, ◌≢◌, refl, ◌⊎◌, inl, inr, Bool, true, false, not, ◌&&◌, ◌||◌, Option,
  none, some, List, ◌∷◌, arith, ltb, leb, ◌==◌, if◌then◌else◌, Bool-cases, Option-cases,
}
use my_malloc.Adaptive.Types.{
  StorageId, size_class, span, direct_map, no_storage, unnamed_storage, AdaptiveHeader,
  ReleaseDecision, hdr_offset,
}
use my_malloc.Adaptive.Telemetry.{
  adaptive_telemetry_on_double_free, adaptive_telemetry_on_header_corruption,
}
use my_malloc.Adaptive.Services.State.{
  count_event, TcacheBin, Services, AdaptivePage, has_flag, flag_pooled, retired_header, set_header,
  set_page,
}
use my_malloc.Adaptive.Services.PageTable.{page_maybe_owned}
use my_malloc.Adaptive.Services.Headers.{
  user_from_header, header_plausible, header_fast, header_from_user, registry_remove,
}
use my_malloc.Adaptive.Services.Caches.{
  push_tcache, enqueue_remote_free, set_bin, tcache_bin_for, tcache_limit_for, find_bucket,
  may_hold, push_bin, remote_bucket_index,
}
use my_malloc.Adaptive.Services.Pages.{
  pool_head_for, release_target_empty_locked, release_empty_locked,
}
use my_malloc.Adaptive.Services.Pages.Release.{release_target-headers, release_empty-headers}
use my_malloc.Adaptive.Services.Release.{
  return_to_page, release_pooled, check_and_poison, deallocate, is_cache, is_eager, or_else,
}

-- A header that no lookup accepts.
abbrev pub Dead : ℕ → Services → Type 0
Dead hdr s = (s.headers hdr).magic ≡ 0

set_bin-headers :
    (token : ℕ) (id : StorageId) (c : ℕ) (bin : TcacheBin) (s : Services)
    → (set_bin token id c bin s).headers ≡ s.headers
unfolding set_bin
set_bin-headers token size_class c bin s = refl
set_bin-headers token span c bin s = refl
set_bin-headers token direct_map c bin s = refl
set_bin-headers token no_storage c bin s = refl
set_bin-headers token (unnamed_storage k) c bin s = refl

-- The header of a block that is put on a chain.
retired_Dead :
    (hdr owner : ℕ) (h : AdaptiveHeader) (s : Services) (headers : ℕ → AdaptiveHeader)
    → headers ≡ (set_header hdr (retired_header owner h) s).headers
    → (headers hdr).magic ≡ 0
retired_Dead hdr owner h s headers e = rw (e, eq_refl hdr) refl

push_tcache-Dead :
    (token hdr small_limit medium_limit : ℕ) (s : Services)
    → (push_tcache token hdr small_limit medium_limit s ≡ none)
      ⊎ ((s' : Services) × (push_tcache token hdr small_limit medium_limit s ≡ some s')
          × Dead hdr s')
unfolding push_tcache
push_tcache-Dead token hdr small_limit medium_limit s =
    let h = s.headers hdr in
    let page = s.pages h.owner_page in
    elim (Bool-cases (hdr == 0 || not (has_flag h.flags flag_pooled) || h.owner_page == 0)) [
      | inl e ↦ rw e (inl refl)
      | inr e ↦ elim (Option-cases (tcache_bin_for token page.storage page.class_index s)) [
        | inl no_bin ↦ rw (e, push_tcache, no_bin) (inl refl)
        | inr (bin, found) ↦
            elim (Bool-cases
              (leb (tcache_limit_for page.storage small_limit medium_limit) bin.count)) [
                | inl full ↦ rw (e, push_tcache, found, full) (inl refl)
                | inr free ↦
                    rw (e, push_tcache, found, free)
                      (inr (
                        _,
                        refl,
                        retired_Dead hdr 0 h s
                            (set_bin token page.storage page.class_index (push_bin hdr bin)
                              (set_header hdr (retired_header 0 h) s)).headers
                            (set_bin-headers token page.storage page.class_index (push_bin hdr bin)
                              (set_header hdr (retired_header 0 h) s)),
                      ))
              ]
      ]
    ]

enqueue_remote_free-Dead :
    (hdr : ℕ) (s : Services)
    → (enqueue_remote_free hdr s ≡ none)
      ⊎ ((s' : Services) × (enqueue_remote_free hdr s ≡ some s') × Dead hdr s')
unfolding enqueue_remote_free
enqueue_remote_free-Dead hdr s =
    let h = s.headers hdr in
    elim (Bool-cases (hdr == 0 || not (has_flag h.flags flag_pooled))) [
      | inl e ↦ rw e (inl refl)
      | inr e ↦
          elim (Option-cases
            (find_bucket (may_hold h.owner_thread s) (remote_bucket_index h.owner_thread) 256)) [
              | inl no_bucket ↦ rw (e, enqueue_remote_free, no_bucket) (inl refl)
              | inr (i, found) ↦
                  rw (e, enqueue_remote_free, found)
                    (inr (
                      _,
                      refl,
                      retired_Dead hdr h.owner_thread h s
                          (set_header hdr (retired_header h.owner_thread h) s).headers refl,
                    ))
            ]
    ]

or_else-Dead :
    (hdr : ℕ) (allowed : Bool) (attempt : Option Services) (fallback : Services)
    → (attempt ≡ none) ⊎ ((s' : Services) × (attempt ≡ some s') × Dead hdr s')
    → Dead hdr fallback
    → Dead hdr (or_else (if allowed then attempt else none) fallback)
or_else-Dead hdr false attempt fallback either dead = dead
or_else-Dead hdr true attempt fallback (inl e) dead = rw e dead
or_else-Dead hdr true attempt fallback (inr (s', e, dead')) dead = rw e dead'

return_to_page-Dead :
    (hdr page : ℕ) (id : StorageId) (c : ℕ) (decision : ReleaseDecision) (s : Services)
    → Dead hdr (return_to_page hdr page id c decision s)
unfolding return_to_page
return_to_page-Dead hdr page id c decision s =
    or_else-Dead hdr (is_eager decision.action && (s1.pages page).live_count == 0)
      (release_target_empty_locked id c page s1) (release_empty_locked id c keep s1) target swept
  where
    p : AdaptivePage
    p = s.pages page

    s1 : Services
    s1 =
        set_page page (record p { free_list = hdr ∷ p.free_list; live_count = p.live_count - 1 })
          (set_header hdr (retired_header 0 (s.headers hdr)) s)

    keep : ℕ
    keep = if is_eager decision.action then 0 else decision.empty_keep_limit

    swept : Dead hdr (release_empty_locked id c keep s1)
    swept =
        retired_Dead hdr 0 (s.headers hdr) s (release_empty_locked id c keep s1).headers
          (release_empty-headers id c keep s1)

    target :
        (release_target_empty_locked id c page s1 ≡ none)
        ⊎ ((s' : Services) × (release_target_empty_locked id c page s1 ≡ some s') × Dead hdr s')
    target = elim (release_target-headers id c page s1) [
      | inl e ↦ inl e
      | inr (s2, e, same) ↦ inr (s2, e, retired_Dead hdr 0 (s.headers hdr) s s2.headers same)
    ]

release_pooled-Dead :
    (token hdr page : ℕ) (id : StorageId) (c : ℕ) (decision : ReleaseDecision) (s : Services)
    → Dead hdr (release_pooled token hdr page id c decision s)
unfolding release_pooled
release_pooled-Dead token hdr page id c decision s =
    let s1 : Services = check_and_poison hdr decision (registry_remove hdr s) in
    let remote_free : Bool = not ((s.headers hdr).owner_thread == token) in
    let local : Bool = is_cache decision.action && not remote_free in
    let cached : Option Services =
      push_tcache token hdr decision.tcache_small_limit decision.tcache_medium_limit s1 in
    let returned : Services = return_to_page hdr page id c decision s1 in
    or_else-Dead hdr (decision.use_remote_queue && remote_free) (enqueue_remote_free hdr s1)
      (or_else (if local then cached else none) returned) (enqueue_remote_free-Dead hdr s1)
      (or_else-Dead hdr local cached returned
        (push_tcache-Dead token hdr decision.tcache_small_limit decision.tcache_medium_limit s1)
        (return_to_page-Dead hdr page id c decision s1))

header_fast-Dead :
    (hdr : ℕ) (s : Services) → Dead hdr s → header_fast (user_from_header hdr) s ≡ none
unfolding header_fast header_plausible
header_fast-Dead hdr s dead =
    let same : user_from_header hdr - hdr_offset ≡ hdr = omega arith in
    elim (Bool-cases
      (user_from_header hdr == 0 || not (page_maybe_owned (user_from_header hdr) s.page_table))) [
        | inl e ↦ rw e refl
        | inr e ↦ elim (Bool-cases (ltb (user_from_header hdr) hdr_offset)) [
          | inl small ↦ rw (e, small) refl
          | inr large ↦ elim (Bool-cases (hdr == 0)) [
            | inl null ↦ rw (e, large, same, dead, null) refl
            | inr some_header ↦ rw (e, large, same, dead, some_header) refl
          ]
        ]
      ]

-- The results of a lookup that finds no header.
abbrev pub without_header : (a b c : Bool) → (x y z : Services) → Services × Option ℕ
without_header a b c x y z =
    if a then if b then (x, none) else if c then (y, none) else (z, none) else (z, none)

pub header_from_user-without_header :
    (hdr : ℕ) (s : Services)
    → Dead hdr s
    → (a : Bool) × (b : Bool) × (c : Bool) × (header_from_user (user_from_header hdr) s
        ≡ without_header a b c
            (count_event adaptive_telemetry_on_double_free s)
            (count_event adaptive_telemetry_on_header_corruption s)
            s)
unfolding header_from_user
header_from_user-without_header hdr s dead =
    let ptr : ℕ = user_from_header hdr in
    let candidate : ℕ = ptr - hdr_offset in
    let back : Bool = page_maybe_owned candidate s.page_table in
    (
      page_maybe_owned ptr s.page_table && leb hdr_offset ptr,
      back && (s.headers candidate).magic == 0,
      back,
      rw (header_fast-Dead hdr s dead, header_from_user) refl,
    )

pub header_from_user-Dead :
    (hdr : ℕ) (s : Services) → Dead hdr s → (header_from_user (user_from_header hdr) s).1 ≡ none
header_from_user-Dead hdr s dead =
    let form = header_from_user-without_header hdr s dead in
    rw form.3 (
      refused form.0 form.1 form.2 (count_event adaptive_telemetry_on_double_free s)
        (count_event adaptive_telemetry_on_header_corruption s) s)
  where
    refused : (a b c : Bool) (x y z : Services) → (without_header a b c x y z).1 ≡ none
    refused true true c x y z = refl
    refused true false true x y z = refl
    refused true false false x y z = refl
    refused false b c x y z = refl

pub deallocate-Dead :
    (token hdr : ℕ) (decision : ReleaseDecision) (s : Services) (head : List ℕ)
    → hdr ≢ 0
    → has_flag (s.headers hdr).flags flag_pooled ≡ true
    → (s.headers hdr).owner_page ≢ 0
    → let page = s.pages (s.headers hdr).owner_page in
      pool_head_for page.storage page.class_index s ≡ some head
      → Dead hdr (deallocate token hdr decision s)
unfolding deallocate
deallocate-Dead token hdr decision s head hdr_ne pooled page_ne known =
    rw (ne_of hdr_ne, pooled, ne_of page_ne, known, deallocate)
      (release_pooled-Dead token hdr _ _ _ decision s)

-- Once a pooled block of a known class is freed, whatever the decision does with it (remote queue,
-- thread cache, free chain, or release of its page), its user pointer leads to no header any more: a
-- second free of it is refused.
pub header_from_user-deallocate :
    (token hdr : ℕ) (decision : ReleaseDecision) (s : Services) (head : List ℕ)
    → hdr ≢ 0
    → has_flag (s.headers hdr).flags flag_pooled ≡ true
    → (s.headers hdr).owner_page ≢ 0
    → let page = s.pages (s.headers hdr).owner_page in
      pool_head_for page.storage page.class_index s ≡ some head
      → (header_from_user (user_from_header hdr) (deallocate token hdr decision s)).1 ≡ none
header_from_user-deallocate token hdr decision s head hdr_ne pooled page_ne known =
    header_from_user-Dead hdr (deallocate token hdr decision s)
      (deallocate-Dead token hdr decision s head hdr_ne pooled page_ne known)
