-- ===== src/Adaptive/Services/PageTable/Ownership.antt =====
-- g_page_table of src/adaptive_services.cpp against its specification, a set of pages.
use my_malloc.Prelude.{
  eq_of, ne_of, ℕ, ◌≡◌, ◌≢◌, refl, sym, ◌∙◌, inl, inr, Bool, true, false, not, ◌&&◌, ◌||◌, arith,
  ◌==◌, Bool-cases,
}
use my_malloc.Adaptive.Services.PageTable.{
  store, find_probe, slot_of, adaptive_page_tombstone, adaptive_page_table_probe, register_page,
  unregister_page,
}
use my_malloc.Adaptive.Services.PageTable.Probes.{
  takes, has_room, store_same, store_other, register_probe_form, find_probe-register_probe,
  unregister_probe_form, find_probe_absent, find_probe-store,
}

-- What a slot with a page in it holds.
pub record IsPage (q : ℕ) : Type 0 where
  pub nonzero : q ≢ 0
  pub no_tombstone : q ≢ adaptive_page_tombstone

abbrev pub find_page : ℕ → (ℕ → ℕ) → Bool
find_page q table = find_probe q (slot_of q) 0 adaptive_page_table_probe table

-- Each page of the set is in one slot, where its search finds it; no other page is in any.
pub record Stored (q : ℕ) (table : ℕ → ℕ) : Type 0 where
  pub place : ℕ
  pub there : table place ≡ q
  pub once : (k : ℕ) → k ≢ place → table k ≢ q
  pub found : find_page q table ≡ true

pub record Represents (table : ℕ → ℕ) (pages : ℕ → Bool) : Type 0 where
  pub member : (q : ℕ) → IsPage q → pages q ≡ true → Stored q table
  pub absent : (q : ℕ) → IsPage q → pages q ≡ false → (k : ℕ) → table k ≢ q

abbrev pub room_for : (page : ℕ) → (ℕ → ℕ) → Bool
room_for page table = has_room page (slot_of page) 0 adaptive_page_table_probe table

abbrev pub insert : ℕ → (ℕ → Bool) → ℕ → Bool
insert page pages q = q == page || pages q

abbrev pub remove : ℕ → (ℕ → Bool) → ℕ → Bool
remove page pages q = not (q == page) && pages q

not_eq : {a b : ℕ} → (a == b) ≡ false → a ≢ b
not_eq h = ground arith

not_eq' : {a b : ℕ} → (a == b) ≡ false → b ≢ a
not_eq' h = ground arith

taken_ne : (page q value : ℕ) → IsPage q → (q == page) ≡ false → takes page value ≡ true → value ≢ q
taken_ne page q value is_q ne t e =
    cc (rw (e, ne_of is_q.nonzero, ne, ne_of is_q.no_tombstone) at t)

-- One slot changes, to hold something other than q where it held something other than q.
Stored-store :
    (q i v : ℕ) (table : ℕ → ℕ)
    → Stored q table
    → v ≢ 0
    → v ≢ q
    → table i ≢ q
    → Stored q (store table i v)
Stored-store q i v table old v_ne ne old_ne = record {
  place = old.place;
  there = store_other table v apart ∙ old.there;
  once = λ k k_ne e. elim (Bool-cases (i == k)) [
    | inl same ↦ ne (sym (rw same refl) ∙ e)
    | inr other ↦ old.once k k_ne (sym (store_other table v (not_eq other)) ∙ e)
  ];
  found =
      find_probe-store q (slot_of q) 0 adaptive_page_table_probe i v table v_ne old_ne old.found;
}
  where
    apart : i ≢ old.place
    apart e = old_ne (rw e old.there)

absent-store :
    (q i v : ℕ) (table : ℕ → ℕ) → v ≢ q → ((k : ℕ) → table k ≢ q) → (k : ℕ) → store table i v k ≢ q
absent-store q i v table ne none k e = elim (Bool-cases (i == k)) [
  | inl same ↦ ne (sym (rw same refl) ∙ e)
  | inr other ↦ none k (sym (store_other table v (not_eq other)) ∙ e)
]

stored_page-Represents :
    (page i : ℕ) (table : ℕ → ℕ) (pages : ℕ → Bool)
    → Represents table pages
    → IsPage page
    → pages page ≡ false
    → takes page (table i) ≡ true
    → find_page page (store table i page) ≡ true
    → Represents (store table i page) (insert page pages)
stored_page-Represents page i table pages rep is_page fresh t found = record {
  member = λ q is_q h. elim (Bool-cases (q == page)) [
    | inl same ↦ rw (eq_of same) new
    | inr other ↦
        Stored-store q i page table (rep.member q is_q (rw other at h)) is_page.nonzero
          (not_eq' other) (taken_ne page q (table i) is_q other t)
  ];
  absent = λ q is_q h. elim (Bool-cases (q == page)) [
    | inl same ↦ absurd (cc (rw same at h))
    | inr other ↦ absent-store q i page table (not_eq' other) (rep.absent q is_q (rw other at h))
  ];
}
  where
    new : Stored page (store table i page)
    new = record {
      place = i;
      there = store_same table i page;
      once = λ k k_ne e.
          rep.absent page is_page fresh k
            (sym (store_other table page (λ i_k. k_ne (sym i_k))) ∙ e);
      found = found;
    }

pub register_page-Represents :
    (page : ℕ) (table : ℕ → ℕ) (pages : ℕ → Bool)
    → Represents table pages
    → IsPage page
    → pages page ≡ false
    → room_for page table ≡ true
    → Represents (register_page page table) (insert page pages)
unfolding register_page
register_page-Represents page table pages rep is_page fresh room =
    let form = register_probe_form page (slot_of page) 0 adaptive_page_table_probe table room in
    let found =
      find_probe-register_probe page (slot_of page) 0 adaptive_page_table_probe table
        is_page.nonzero room in
    rw form.2
      (stored_page-Represents page form.0 table pages rep is_page fresh form.1 (rw form.2 at found))

pub unregister_page-Represents :
    (page : ℕ) (table : ℕ → ℕ) (pages : ℕ → Bool)
    → Represents table pages
    → IsPage page
    → pages page ≡ true
    → Represents (unregister_page page table) (remove page pages)
unfolding unregister_page
unregister_page-Represents page table pages rep is_page there =
    let old = rep.member page is_page there in
    let form =
      unregister_probe_form page (slot_of page) 0 adaptive_page_table_probe old.place table old.once
        old.found in
    rw form record {
      member = λ q is_q h. elim (Bool-cases (q == page)) [
        | inl same ↦ absurd (cc (rw same at h))
        | inr other ↦
            Stored-store q old.place adaptive_page_tombstone table
              (rep.member q is_q (rw other at h)) (λ e. omega (arith, e))
              (λ e. is_q.no_tombstone (sym e)) (λ e. not_eq' other (sym old.there ∙ e))
      ];
      absent = λ q is_q h. elim (Bool-cases (q == page)) [
        | inl same ↦ rw (eq_of same) (gone old)
        | inr other ↦
            absent-store q old.place adaptive_page_tombstone table (λ e. is_q.no_tombstone (sym e))
              (rep.absent q is_q (rw other at h))
      ];
    }
  where
    gone :
        (old : Stored page table) (k : ℕ) → store table old.place adaptive_page_tombstone k ≢ page
    gone old k e = elim (Bool-cases (old.place == k)) [
      | inl same ↦ is_page.no_tombstone (sym e ∙ rw same refl)
      | inr other ↦
          old.once k (not_eq' other)
            (sym (store_other table adaptive_page_tombstone (not_eq other)) ∙ e)
    ]

-- A search answers as the set does.
pub find_page-Represents :
    (q : ℕ) (table : ℕ → ℕ) (pages : ℕ → Bool)
    → Represents table pages
    → IsPage q
    → find_page q table ≡ pages q
find_page-Represents q table pages rep is_q = elim (Bool-cases (pages q)) [
  | inl e ↦ rw (e, (rep.member q is_q e).found) refl
  | inr e ↦
      rw
        (e, find_probe_absent q (slot_of q) 0 adaptive_page_table_probe table (rep.absent q is_q e))
        refl
]
