-- ===== src/Classic/Tcmalloc/Central/Range.antt =====
-- remove_range of classic/tcmalloc/central_freelist.cpp takes nodes in order and loses none.
use my_malloc.Prelude.{
  ℕ, zero, suc, ◌+◌, ◌-◌, ◌%◌, ◌^◌, ◌≡◌, ◌≢◌, refl, sym, ◌∙◌, ap, false, some, List, [], ◌∷◌, ◌++◌,
  length, take, drop, ◌==◌, ne_of, subst,
}
use my_malloc.Classic.Tcmalloc.Span.{Span}
use my_malloc.Classic.Tcmalloc.PageHeap.{PageHeap, set_prev, update_span}
use my_malloc.Classic.Tcmalloc.PageHeap.Valid.{put_same, put_other}
use my_malloc.Classic.Tcmalloc.Central.{
  CentralFreeList, Store, move_to_empty, take_nodes, remove_loop,
}
use my_malloc.Classic.Tcmalloc.Central.Chain.{
  Absent, Chain, all_nodes, SameOutside, set_prev_member, set_prev_other, set_prev_self,
  Chain-outside, all_nodes-outside, pull_lem, take-append_long,
}

-- The list of spans with nodes: a chain whose head has no link back.
pub record IsList (c : Store) (xs : List ℕ) : Type 0 where
  pub chain : Chain c.heap c.central.nonempty xs
  pub head : c.central.nonempty ≢ 0 → (c.heap.spans c.central.nonempty).prev ≡ 0
  pub apart : Absent c.central.empty xs

-- A span that keeps some nodes.
take_nodes-outside :
    (span : ℕ) (taken left : List ℕ) (c : Store)
    → SameOutside span c.heap (take_nodes span taken left c).heap
unfolding take_nodes
take_nodes-outside span taken left c = record {
  next = λ y ne. ap (λ (s : Span). s.next) (put_other c.heap.spans span y _ ne);
  nodes = λ y ne. ap (λ (s : Span). s.freelist) (put_other c.heap.spans span y _ ne);
}

-- A head that moves to the other list.
module _ (x : ℕ) (c : Store) (no_prev : (c.heap.spans x).prev ≡ 0) where
  move_form : move_to_empty x c ≡ record {
    central = record c.central { nonempty = (c.heap.spans x).next; empty = x };
    heap = set_prev c.central.empty x (
        update_span x
          (λ (s : Span). record s { prev = 0; next = c.central.empty })
          (set_prev (c.heap.spans x).next (c.heap.spans x).prev c.heap));
  }
  unfolding move_to_empty
  move_form = rw no_prev refl

  -- Before the last write, and before the one before it.
  abbrev unlinked : PageHeap
  unlinked = set_prev (c.heap.spans x).next (c.heap.spans x).prev c.heap

  abbrev moved : PageHeap
  moved = update_span x (λ (s : Span). record s { prev = 0; next = c.central.empty }) unlinked

  member_outside :
      {B : Type 0} (g : Span → B) (y : ℕ)
      → ((s : Span) (b : ℕ) → g (record s { prev = b }) ≡ g s)
      → x ≢ y
      → g ((set_prev c.central.empty x moved).spans y) ≡ g (c.heap.spans y)
  member_outside g y keeps ne =
      set_prev_member g c.central.empty x y moved (λ s. keeps s x)
      ∙ ap g (put_other unlinked.spans x y _ ne)
      ∙ set_prev_member g _ _ y c.heap (λ s. keeps s _)

  move-outside : SameOutside x c.heap (move_to_empty x c).heap
  move-outside =
      subst (λ (d : Store). SameOutside x c.heap d.heap) (sym move_form)
        record {
          next = λ y. member_outside (λ (s : Span). s.next) y (λ s b. refl);
          nodes = λ y. member_outside (λ (s : Span). s.freelist) y (λ s b. refl);
        }

  -- The next span becomes the head.
  move-head :
      (c.heap.spans x).next ≢ 0
      → x ≢ (c.heap.spans x).next
      → c.central.empty ≢ (c.heap.spans x).next
      → ((move_to_empty x c).heap.spans (c.heap.spans x).next).prev ≡ 0
  move-head pos ne apart =
      ap (λ (d : Store). (d.heap.spans (c.heap.spans x).next).prev) move_form
      ∙ ap (λ (s : Span). s.prev) (set_prev_other c.central.empty x _ moved apart)
      ∙ ap (λ (s : Span). s.prev) (put_other unlinked.spans x _ _ ne)
      ∙ set_prev_self _ _ c.heap pos
      ∙ no_prev

-- What a call takes and leaves.
pub record Removed (n : ℕ) (xs : List ℕ) (c : Store) (taken : List ℕ) (c' : Store) : Type 0 where
  pub taken_first : taken ≡ take n (all_nodes c.heap xs)
  pub left_spans : List ℕ
  pub list : IsList c' left_spans
  pub left_nodes : all_nodes c'.heap left_spans ≡ drop n (all_nodes c.heap xs)

pub take-nil : (n : ℕ) → (take {A = ℕ} n [] ≡ []) × (drop {A = ℕ} n [] ≡ [])
take-nil zero = (refl, refl)
take-nil (suc n) = (refl, refl)

-- What is on no place of a chain is not its first object.
not_first : (y q : ℕ) (h : PageHeap) (xs : List ℕ) → Chain h q xs → q ≢ 0 → Absent y xs → y ≢ q
not_first y q h [] chain ne away e = ne chain
not_first y q h (x ∷ xs) (at, pos, fresh, rest) ne away e = away.0 (e ∙ at)

-- One round at the head p of the list, which has the nodes f.
module _ (rounds n : ℕ) (c : Store) (p : ℕ) (at : c.central.nonempty ≡ p) (pos : p ≢ 0)
    (wanted : (n == 0) ≡ false) where
  abbrev front : List ℕ
  front = (c.heap.spans p).freelist

  abbrev taken_from : Store
  taken_from = take_nodes p (take n front) (drop n front) c

  pub round_kept :
      (z : ℕ) (zs : List ℕ)
      → drop n front ≡ z ∷ zs
      → remove_loop (suc rounds) p n c ≡ some (take n front, take_nodes p (take n front) (z ∷ zs) c)
  unfolding remove_loop
  round_kept z zs e =
      rw (ne_of pos, remove_loop, wanted, pull_lem n front, e) (rw (pull_lem n front, e) refl)

  pub round_moved :
      drop n front ≡ []
      → (more : List ℕ) (c' : Store)
      → remove_loop rounds
          (move_to_empty p (take_nodes p (take n front) [] c)).central.nonempty
          (n - length (take n front))
          (move_to_empty p (take_nodes p (take n front) [] c))
        ≡ some (more, c')
      → remove_loop (suc rounds) p n c ≡ some (take n front ++ more, c')
  unfolding remove_loop
  round_moved e more c' rest =
      rw (ne_of pos, remove_loop, wanted, pull_lem n front, e)
        (rw (pull_lem n front, e, rest) (rw (pull_lem n front) refl))

  -- The head after its nodes were taken.
  abbrev emptied : (left : List ℕ) → Span
  emptied left = record (c.heap.spans p) {
    freelist = left;
    refcount = ((c.heap.spans p).refcount + length (take n front)) % 2 ^ 32;
  }

  here : (left : List ℕ) → (take_nodes p (take n front) left c).heap.spans p ≡ emptied left
  unfolding take_nodes
  here left = put_same c.heap.spans p (emptied left)

  abbrev after_taking : (left : List ℕ) → Store
  after_taking left = take_nodes p (take n front) left c

  central_kept : (left : List ℕ) → (after_taking left).central ≡ c.central
  unfolding take_nodes
  central_kept left = refl

  prev_kept : (left : List ℕ) → ((after_taking left).heap.spans p).prev ≡ (c.heap.spans p).prev
  prev_kept left = ap (λ (s : Span). s.prev) (here left)

  next_kept : (left : List ℕ) → ((after_taking left).heap.spans p).next ≡ (c.heap.spans p).next
  next_kept left = ap (λ (s : Span). s.next) (here left)

  head_free : (xs : List ℕ) → IsList c (p ∷ xs) → (c.heap.spans p).prev ≡ 0
  head_free xs list =
      ap (λ (q : ℕ). (c.heap.spans q).prev) (sym at) ∙ list.head (λ z. pos (sym at ∙ z))

  -- The list when the head keeps nodes.
  pub kept-Removed :
      (xs : List ℕ) (z : ℕ) (zs : List ℕ)
      → IsList c (p ∷ xs)
      → drop n front ≡ z ∷ zs
      → Removed n (p ∷ xs) c (take n front) (after_taking (z ∷ zs))
  kept-Removed xs z zs list e =
      let split = take-append_long n front (all_nodes c.heap xs) zs z e in
      let c1 = after_taking (z ∷ zs) in
      let same = take_nodes-outside p (take n front) (z ∷ zs) c in
      let (at', pos', fresh, rest) = list.chain in
      let first : c1.central.nonempty ≡ p =
        ap (λ (k : CentralFreeList). k.nonempty) (central_kept (z ∷ zs)) ∙ at in
      record {
        taken_first = sym split.0;
        left_spans = p ∷ xs;
        list = record {
          chain = (
            first,
            pos,
            fresh,
            rw (next_kept (z ∷ zs))
                (Chain-outside p (c.heap.spans p).next c.heap c1.heap xs same fresh rest),
          );
          head = λ ne.
              ap (λ (q : ℕ). (c1.heap.spans q).prev) first ∙ prev_kept (z ∷ zs) ∙ head_free xs list;
          apart =
              subst (λ (k : CentralFreeList). Absent k.empty (p ∷ xs)) (sym (central_kept (z ∷ zs)))
                list.apart;
        };
        left_nodes =
            rw
              (
                ap (λ (s : Span). s.freelist) (here (z ∷ zs)),
                all_nodes-outside p c.heap c1.heap xs same fresh,
              )
              (sym split.1);
      }

  -- The list when the head has moved.
  module _ (xs : List ℕ) (list : IsList c (p ∷ xs)) where
    abbrev c1 : Store
    c1 = after_taking []

    abbrev c2 : Store
    c2 = move_to_empty p c1

    no_prev : (c1.heap.spans p).prev ≡ 0
    no_prev = prev_kept [] ∙ head_free xs list

    head_moved : c2.central.nonempty ≡ (c.heap.spans p).next
    head_moved = ap (λ (d : Store). d.central.nonempty) (move_form p c1 no_prev) ∙ next_kept []

    pub both-outside : SameOutside p c.heap c2.heap
    both-outside =
        let first = take_nodes-outside p (take n front) [] c in
        let second = move-outside p c1 no_prev in
        record {
          next = λ y ne. second.next y ne ∙ first.next y ne;
          nodes = λ y ne. second.nodes y ne ∙ first.nodes y ne;
        }

    moved_head : c2.central.nonempty ≢ 0 → (c2.heap.spans c2.central.nonempty).prev ≡ 0
    moved_head ne =
        let (at', pos', fresh, rest) = list.chain in
        let to : c2.central.nonempty ≡ (c1.heap.spans p).next =
          ap (λ (d : Store). d.central.nonempty) (move_form p c1 no_prev) in
        let pos_next : (c.heap.spans p).next ≢ 0 = λ z. ne (head_moved ∙ z) in
        let far = λ (y : ℕ) (away : Absent y xs).
          not_first y (c.heap.spans p).next c.heap xs rest pos_next away in
        let empty_kept : c1.central.empty ≡ c.central.empty =
          ap (λ (k : CentralFreeList). k.empty) (central_kept []) in
        ap (λ (y : ℕ). (c2.heap.spans y).prev) to
        ∙ move-head p c1 no_prev (λ z. pos_next (sym (next_kept []) ∙ z))
            (λ e. far p fresh (e ∙ next_kept []))
            (λ e. far c.central.empty list.apart.1 (sym empty_kept ∙ e ∙ next_kept []))

    pub moved-IsList : IsList c2 xs
    moved-IsList =
        let (at', pos', fresh, rest) = list.chain in
        record {
          chain =
              rw head_moved
                (Chain-outside p (c.heap.spans p).next c.heap c2.heap xs both-outside fresh rest);
          head = moved_head;
          apart =
              subst (λ (k : ℕ). Absent k xs)
                (sym (ap (λ (d : Store). d.central.empty) (move_form p c1 no_prev))) fresh;
        }
