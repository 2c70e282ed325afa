-- ===== src/Adaptive/Services/PageTable/Probes.antt =====
-- What the probe loops of src/adaptive_services.cpp do to one another, on any sequence of slots.
use my_malloc.Prelude.{
  ℕ, zero, suc, ◌≡◌, ◌≢◌, refl, inl, inr, Bool, true, false, ◌||◌, arith, ◌==◌, Bool-cases, eq_refl,
  eq_of, ne_of,
}
use my_malloc.Adaptive.Services.PageTable.{
  store, register_probe, unregister_probe, find_probe, adaptive_page_tombstone,
}

-- What a slot may hold where a page is registered.
abbrev pub takes : (page value : ℕ) → Bool
takes page value = value == 0 || value == page || value == adaptive_page_tombstone

-- One of the slots that a search visits may be taken.
abbrev pub has_room : (page : ℕ) → (ℕ → ℕ) → (probe left : ℕ) → (ℕ → ℕ) → Bool
has_room page slot probe zero table = false
has_room page slot probe (suc left) table =
    takes page (table (slot probe)) || has_room page slot (suc probe) left table

pub store_same : (table : ℕ → ℕ) (i v : ℕ) → store table i v i ≡ v
store_same table i v = rw (eq_refl i) refl

pub store_other : (table : ℕ → ℕ) {i k : ℕ} (v : ℕ) → i ≢ k → store table i v k ≡ table k
store_other table v h = rw (ne_of h) refl

module _ (page : ℕ) (slot : ℕ → ℕ) where
  pub register_probe_form :
      (probe left : ℕ) (table : ℕ → ℕ)
      → has_room page slot probe left table ≡ true
      → (i : ℕ) × (takes page (table i) ≡ true)
        × (register_probe page slot probe left table ≡ store table i page)
  unfolding register_probe
  register_probe_form probe zero table h = absurd (cc h)
  register_probe_form probe (suc left) table h =
      elim (Bool-cases (takes page (table (slot probe)))) [
        | inl e ↦ (slot probe, e, rw e refl)
        | inr e ↦ rw e (register_probe_form (suc probe) left table (rw e at h))
      ]

  store_nonzero :
      (table : ℕ → ℕ) (i k : ℕ) → page ≢ 0 → table k ≢ 0 → (store table i page k == 0) ≡ false
  store_nonzero table i k page_ne ne = elim (Bool-cases (i == k)) [
    | inl same ↦ rw same (ne_of page_ne)
    | inr other ↦ rw other (ne_of ne)
  ]

  -- A search that passes a slot, or ends at it with success.
  find_later :
      (probe left : ℕ) (table : ℕ → ℕ)
      → (table (slot probe) == 0) ≡ false
      → find_probe page slot (suc probe) left table ≡ true
      → find_probe page slot probe (suc left) table ≡ true
  unfolding find_probe
  find_later probe left table ne found = elim (Bool-cases (table (slot probe) == page)) [
    | inl e ↦ rw e refl
    | inr e ↦ rw (e, ne) found
  ]

  find_here :
      (probe left : ℕ) (table : ℕ → ℕ)
      → table (slot probe) ≡ page
      → find_probe page slot probe (suc left) table ≡ true
  unfolding find_probe
  find_here probe left table e = rw (e, eq_refl page) refl

  not_taken : (value : ℕ) → takes page value ≡ false → value ≢ 0
  not_taken value e = ground arith

  -- A page that is registered where there is room is found.
  pub find_probe-register_probe :
      (probe left : ℕ) (table : ℕ → ℕ)
      → page ≢ 0
      → has_room page slot probe left table ≡ true
      → find_probe page slot probe left (register_probe page slot probe left table) ≡ true
  unfolding register_probe
  find_probe-register_probe probe zero table page_ne h = absurd (cc h)
  find_probe-register_probe probe (suc left) table page_ne h =
      elim (Bool-cases (takes page (table (slot probe)))) [
        | inl e ↦ rw e (
            find_here probe left (store table (slot probe) page)
              (store_same table (slot probe) page))
        | inr e ↦
            let room = rw e at h in
            let form = register_probe_form (suc probe) left table room in
            let ne =
              store_nonzero table form.0 (slot probe) page_ne (not_taken (table (slot probe)) e) in
            rw e (
              find_later probe left _ (rw form.2 ne)
                (find_probe-register_probe (suc probe) left table page_ne room))
      ]

  -- Where a page that is found lies in one place only, unregistering it leaves a tombstone there.
  pub unregister_probe_form :
      (probe left i : ℕ) (table : ℕ → ℕ)
      → ((k : ℕ) → k ≢ i → table k ≢ page)
      → find_probe page slot probe left table ≡ true
      → unregister_probe page slot probe left table ≡ store table i adaptive_page_tombstone
  unfolding find_probe unregister_probe
  unregister_probe_form probe zero i table once found = absurd (cc found)
  unregister_probe_form probe (suc left) i table once found =
      elim (Bool-cases (table (slot probe) == page)) [
        | inl e ↦ elim (Bool-cases (slot probe == i)) [
          | inl here ↦ rw (e, eq_of here) refl
          | inr other ↦ absurd (once (slot probe) (not_eq other) (eq_of e))
        ]
        | inr e ↦ elim (Bool-cases (table (slot probe) == 0)) [
          | inl empty ↦ absurd (cc (rw (e, empty) at found))
          | inr full ↦
              rw (e, full)
                (unregister_probe_form (suc probe) left i table once (rw (e, full) at found))
        ]
      ]
    where
      not_eq : {a b : ℕ} → (a == b) ≡ false → a ≢ b
      not_eq h = ground arith

  -- A page that no slot holds is not found.
  pub find_probe_absent :
      (probe left : ℕ) (table : ℕ → ℕ)
      → ((k : ℕ) → table k ≢ page)
      → find_probe page slot probe left table ≡ false
  unfolding find_probe
  find_probe_absent probe zero table none = refl
  find_probe_absent probe (suc left) table none = elim (Bool-cases (table (slot probe) == 0)) [
    | inl e ↦ rw (ne_of (none (slot probe)), e) refl
    | inr e ↦ rw (ne_of (none (slot probe)), e) (find_probe_absent (suc probe) left table none)
  ]

  -- A write of something other than 0 over something other than the page does not hide it.
  pub find_probe-store :
      (probe left i v : ℕ) (table : ℕ → ℕ)
      → v ≢ 0
      → table i ≢ page
      → find_probe page slot probe left table ≡ true
      → find_probe page slot probe left (store table i v) ≡ true
  unfolding find_probe
  find_probe-store probe zero i v table v_ne old found = absurd (cc found)
  find_probe-store probe (suc left) i v table v_ne old found = elim (Bool-cases (i == slot probe)) [
    | inl same ↦
        let e : (table (slot probe) == page) ≡ false = rw (← eq_of same) (ne_of old) in
        elim (Bool-cases (table (slot probe) == 0)) [
          | inl empty ↦ absurd (cc (rw (e, empty) at found))
          | inr full ↦
              find_later probe left (store table i v) (rw same (ne_of v_ne))
                (find_probe-store (suc probe) left i v table v_ne old (rw (e, full) at found))
        ]
    | inr other ↦ elim (Bool-cases (table (slot probe) == page)) [
      | inl e ↦ rw (other, e) refl
      | inr e ↦ elim (Bool-cases (table (slot probe) == 0)) [
        | inl empty ↦ absurd (cc (rw (e, empty) at found))
        | inr full ↦
            find_later probe left (store table i v) (rw (other, full) refl)
              (find_probe-store (suc probe) left i v table v_ne old (rw (e, full) at found))
      ]
    ]
  ]
