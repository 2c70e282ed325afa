-- ===== src/Classic/Ptmalloc/Bins/Search.antt =====
-- contains_free_chunk, unlink_free_chunk and free_chunk_count of classic/ptmalloc/bins.cpp: walks over every
-- fastbin and every bin.
use my_malloc.Prelude.{
  ℕ, zero, suc, ◌+◌, ◌-◌, Bool, true, false, ◌||◌, Option, none, some, ◌==◌, if◌then◌else◌, put,
}
use my_malloc.Classic.Ptmalloc.Chunk.{nfastbins}
use my_malloc.Classic.Ptmalloc.Links.{Links, set_fd, unlink}
use my_malloc.Classic.Ptmalloc.Bins.{Bins, as_chunk, bin_empty, unmark_bin}

-- Along fd from cur on, up to a null pointer or to `stop`.
unfoldable pub on_list : (fuel p cur stop : ℕ) → Links → Bool
on_list zero p cur stop l = false
on_list (suc fuel) p cur stop l =
    let rest = on_list fuel p (l.fd cur) stop l in
    if (cur == 0) || (cur == stop) then false else if cur == p then true else rest

unfoldable pub list_count : (fuel cur stop : ℕ) → Links → ℕ
list_count zero cur stop l = 0
list_count (suc fuel) cur stop l =
    let rest = list_count fuel (l.fd cur) stop l in
    if (cur == 0) || (cur == stop) then 0 else suc rest

-- The fastbins from nfastbins - left on, and the bins from n_bins - left on.
unfoldable pub fast_has : (left fuel p : ℕ) → Bins → Bool
fast_has zero fuel p b = false
fast_has (suc left) fuel p b =
    let rest = fast_has left fuel p b in on_list fuel p (b.fast (9 - left)) 0 b.links || rest

unfoldable pub bins_have : (left fuel p : ℕ) → Bins → Bool
bins_have zero fuel p b = false
bins_have (suc left) fuel p b =
    let rest = bins_have left fuel p b in
    let sentinel = as_chunk (127 - left) b in
    if bin_empty (127 - left) b
    then rest
    else on_list fuel p (b.links.fd sentinel) sentinel b.links || rest

unfoldable pub contains_free_chunk : (fuel p : ℕ) → Bins → Bool
contains_free_chunk fuel p b =
    if p == 0 then false else fast_has nfastbins fuel p b || bins_have 127 fuel p b

-- p is taken out behind `prev`, 0 at the head of fastbin i.
unfoldable pub unlink_fast : (fuel p i prev cur : ℕ) → Bins → Option Bins
unlink_fast zero p i prev cur b = none
unlink_fast (suc fuel) p i prev cur b =
    let next = b.links.fd cur in
    let rest = unlink_fast fuel p i cur next b in
    if cur == 0
    then none
    else if cur == p
    then (if prev == 0
        then some (record b { fast = put b.fast i next })
        else some (record b { links = set_fd prev next b.links }))
    else rest

unfoldable pub first_of {ℓ} : {A : Type ℓ} → Option A → Option A → Option A
first_of (some a) o = some a
first_of none o = o

unfoldable pub unlink_from_fast : (left fuel p : ℕ) → Bins → Option Bins
unlink_from_fast zero fuel p b = none
unlink_from_fast (suc left) fuel p b =
    first_of (unlink_fast fuel p (9 - left) 0 (b.fast (9 - left)) b)
      (unlink_from_fast left fuel p b)

unfoldable pub unlink_from_bins : (left fuel p : ℕ) → Bins → Option Bins
unlink_from_bins zero fuel p b = none
unlink_from_bins (suc left) fuel p b =
    let rest = unlink_from_bins left fuel p b in
    let i = 127 - left in
    let sentinel = as_chunk i b in
    if bin_empty i b
    then rest
    else if on_list fuel p (b.links.fd sentinel) sentinel b.links
    then some (unmark_bin i (record b { links = unlink p b.links }))
    else rest

-- none where the source returns false.
unfoldable pub unlink_free_chunk : (fuel p : ℕ) → Bins → Option Bins
unlink_free_chunk fuel p b =
    first_of (unlink_from_fast nfastbins fuel p b) (unlink_from_bins 127 fuel p b)

unfoldable pub fast_count : (left fuel : ℕ) → Bins → ℕ
fast_count zero fuel b = 0
fast_count (suc left) fuel b =
    list_count fuel (b.fast (9 - left)) 0 b.links + fast_count left fuel b

unfoldable pub bins_count : (left fuel : ℕ) → Bins → ℕ
bins_count zero fuel b = 0
bins_count (suc left) fuel b =
    let rest = bins_count left fuel b in
    let sentinel = as_chunk (127 - left) b in
    if bin_empty (127 - left) b
    then rest
    else list_count fuel (b.links.fd sentinel) sentinel b.links + rest

unfoldable pub free_chunk_count : (fuel : ℕ) → Bins → ℕ
free_chunk_count fuel b = fast_count nfastbins fuel b + bins_count 127 fuel b
