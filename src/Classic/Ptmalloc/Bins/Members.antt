-- ===== src/Classic/Ptmalloc/Bins/Members.antt =====
-- What the walks of classic/ptmalloc/bins.cpp over the free chunks return.
use my_malloc.Prelude.{
  ℕ, zero, suc, ◌-◌, ◌≡◌, refl, subst, sym, ◌∙◌, inl, inr, arith, Bool, true, false, ◌||◌, Option,
  none, some, ◌==◌, if◌then◌else◌, Bool-cases, eq_of,
}
use my_malloc.Classic.Ptmalloc.Chunk.{nfastbins}
use my_malloc.Classic.Ptmalloc.Links.{Links}
use my_malloc.Classic.Ptmalloc.Bins.{Bins, as_chunk}
use my_malloc.Classic.Ptmalloc.Bins.Search.{
  on_list, fast_has, bins_have, contains_free_chunk, unlink_fast, first_of, unlink_from_fast,
  unlink_from_bins, unlink_free_chunk,
}

abbrev pub is_some {ℓ} : {A : Type ℓ} → Option A → Bool
is_some none = false
is_some (some a) = true

is_some-first_of {ℓ} :
    {A : Type ℓ} (o o' : Option A) → is_some (first_of o o') ≡ (is_some o || is_some o')
unfolding first_of
is_some-first_of none o' = refl
is_some-first_of (some a) o' = refl

unlink_fast-found :
    (fuel p i prev cur : ℕ) (b : Bins)
    → is_some (unlink_fast fuel p i prev cur b) ≡ on_list fuel p cur 0 b.links
unfolding unlink_fast on_list
unlink_fast-found zero p i prev cur b = refl
unlink_fast-found (suc fuel) p i prev cur b =
    ground (arith, unlink_fast-found fuel p i cur (b.links.fd cur) b)

unlink_from_fast-found :
    (left fuel p : ℕ) (b : Bins) → is_some (unlink_from_fast left fuel p b) ≡ fast_has left fuel p b
unfolding unlink_from_fast fast_has
unlink_from_fast-found zero fuel p b = refl
unlink_from_fast-found (suc left) fuel p b =
    rw (is_some-first_of, unlink_fast-found, unlink_from_fast-found left fuel p b) refl

unlink_from_bins-found :
    (left fuel p : ℕ) (b : Bins)
    → is_some (unlink_from_bins left fuel p b) ≡ bins_have left fuel p b
unfolding unlink_from_bins bins_have
unlink_from_bins-found zero fuel p b = refl
unlink_from_bins-found (suc left) fuel p b = ground (arith, unlink_from_bins-found left fuel p b)

-- No walk stops at the null pointer.
on_list_null : (fuel cur stop : ℕ) (l : Links) → on_list fuel 0 cur stop l ≡ false
unfolding on_list
on_list_null zero cur stop l = refl
on_list_null (suc fuel) cur stop l = ground (arith, on_list_null fuel (l.fd cur) stop l)

fast_has_null : (left fuel : ℕ) (b : Bins) → fast_has left fuel 0 b ≡ false
unfolding fast_has
fast_has_null zero fuel b = refl
fast_has_null (suc left) fuel b = rw (on_list_null, fast_has_null left fuel b) refl

bins_have_null : (left fuel : ℕ) (b : Bins) → bins_have left fuel 0 b ≡ false
unfolding bins_have
bins_have_null zero fuel b = refl
bins_have_null (suc left) fuel b = ground (
  arith,
  on_list_null fuel (b.links.fd (as_chunk (127 - left) b)) (as_chunk (127 - left) b) b.links,
  bins_have_null left fuel b,
)

-- unlink_free_chunk takes a chunk out exactly where contains_free_chunk has found it, for any address and
-- any bins; the null pointer is nowhere.
pub contains-unlink_free_chunk :
    (fuel p : ℕ) (b : Bins) → is_some (unlink_free_chunk fuel p b) ≡ contains_free_chunk fuel p b
unfolding unlink_free_chunk contains_free_chunk
contains-unlink_free_chunk fuel p b =
    is_some-first_of (unlink_from_fast nfastbins fuel p b) (unlink_from_bins 127 fuel p b)
    ∙ rw (unlink_from_fast-found, unlink_from_bins-found)
        (elim (Bool-cases (p == 0)) [
          | inl e ↦
              subst
                (λ p. (fast_has nfastbins fuel p b || bins_have 127 fuel p b) ≡ (
                  if p == 0 then false else fast_has nfastbins fuel p b || bins_have 127 fuel p b))
                (sym (eq_of e)) (rw (fast_has_null, bins_have_null) refl)
          | inr ne ↦ rw ne refl
        ])
