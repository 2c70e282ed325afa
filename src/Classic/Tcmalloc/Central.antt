-- ===== src/Classic/Tcmalloc/Central.antt =====
-- classic/tcmalloc/central_freelist.cpp: the free objects of one size class, in the chains of its spans.
-- The spans are those of the page heap.
pub mod Chain
pub mod Range
pub mod Removal
pub mod Lost
mod Tests
use my_malloc.Prelude.{
  put, ℕ, zero, suc, ◌+◌, ◌-◌, ◌*◌, ◌%◌, ◌^◌, ◌≡◌, Bool, true, false, not, ◌&&◌, ◌||◌, Option, none,
  some, List, [], ◌∷◌, ◌++◌, length, ltb, leb, ◌==◌, if◌then◌else◌, word,
}
use my_malloc.Classic.Tcmalloc.SizeClasses.{k_num_classes}
use my_malloc.Classic.Tcmalloc.Span.{Span}
use my_malloc.Classic.Tcmalloc.PageHeap.{PageHeap, update_span, set_prev, set_next}

pub record CentralFreeList : Type 0 where
  pub nonempty : ℕ
  pub empty : ℕ
  pub tc_length : ℕ

abbrev pub initial_central : CentralFreeList
initial_central = record { nonempty = 0; empty = 0; tc_length = 1 }

-- The list of a class, and the objects that it points to.
pub record Store : Type 0 where
  pub central : CentralFreeList
  pub heap : PageHeap

-- The inner loop: at most n nodes from the front of a chain, and what is left of it.
pub pull : (n : ℕ) → List ℕ → List ℕ × List ℕ
pull zero nodes = ([], nodes)
pull (suc n) [] = ([], [])
pull (suc n) (node ∷ nodes) = let (taken, left) = pull n nodes in (node ∷ taken, left)

-- A span without nodes goes to the front of the empty list.
unfoldable pub move_to_empty : (span : ℕ) → Store → Store
move_to_empty span c =
    let s = c.heap.spans span in
    let nonempty = if not (s.prev == 0) then c.central.nonempty else s.next in
    let h1 = if not (s.prev == 0) then set_next s.prev s.next c.heap else c.heap in
    let h2 = set_prev s.next s.prev h1 in
    let h3 = update_span span (λ (s : Span). record s { prev = 0; next = c.central.empty }) h2 in
    record {
      central = record c.central { nonempty = nonempty; empty = span };
      heap = set_prev c.central.empty span h3;
    }

-- The nodes of a span leave it.
unfoldable pub take_nodes : (span : ℕ) → (taken left : List ℕ) → Store → Store
take_nodes span taken left c = record c {
  heap =
      update_span span
        (λ (s : Span). record s {
          freelist = left;
          refcount = (s.refcount + length taken) % 2 ^ 32;
        })
        c.heap;
}

-- The outer loop, from a span on, with the number of nodes that are still wanted; `none` where the
-- rounds do not lead to its end.
pub remove_loop : (rounds span wanted : ℕ) → Store → Option (List ℕ × Store)
unfolding pull move_to_empty take_nodes
remove_loop zero span wanted c = none
remove_loop (suc rounds) span wanted c = elim (span == 0 || wanted == 0) [
  | true ↦ some ([], c)
  | false ↦
      let (taken, left) = pull wanted (c.heap.spans span).freelist in
      let c1 = take_nodes span taken left c in
      elim left [
        | node ∷ nodes ↦ some (taken, c1)
        | [] ↦
            let c2 = move_to_empty span c1 in
            elim (remove_loop rounds c2.central.nonempty (wanted - length taken) c2) [
              | none ↦ none
              | some (more, c3) ↦ some (taken ++ more, c3)
            ]
      ]
]

unfoldable pub remove_range : (n : ℕ) → Store → Option (List ℕ × Store)
unfolding remove_loop
remove_range n c =
    if c.central.nonempty == 0
    then some ([], c)
    else remove_loop (c.heap.next_span + 1) c.central.nonempty n c

-- The head of the empty list goes back to the front of the other.
unfoldable pub move_to_nonempty : Store → Store
move_to_nonempty c =
    let span = c.central.empty in
    let empty = (c.heap.spans span).next in
    let h1 = set_next span c.central.nonempty (set_prev empty 0 c.heap) in
    let h2 = set_prev c.central.nonempty span h1 in
    record {
      central = record c.central { nonempty = span; empty = empty };
      heap = update_span span (λ (s : Span). record s { prev = 0 }) h2;
    }

abbrev pub has_span : Store → Bool
has_span c =
    not (c.central.nonempty == 0) && ltb (c.heap.spans c.central.nonempty).size_class k_num_classes

-- The span that a node counts for, and the lists after the choice.
abbrev pub chosen : Store → ℕ
chosen c = if has_span c then c.central.nonempty else c.central.empty

unfoldable pub supplied : Store → Store
unfolding move_to_nonempty
supplied c = if has_span c then c else if not (c.central.empty == 0) then move_to_nonempty c else c

abbrev pub drop_reference : (span : ℕ) → Store → Store
drop_reference span c = record c {
  heap =
      update_span span (λ (s : Span). record s { refcount = (s.refcount + (2 ^ 32 - 1)) % 2 ^ 32 })
        c.heap;
}

-- One round of the loop of insert_range. The node itself is not linked to a chain.
unfoldable pub insert_node : Store → Store
insert_node c = if chosen c == 0 then supplied c else drop_reference (chosen c) (supplied c)

unfoldable pub insert_range : (nodes : List ℕ) → Store → Store
unfolding insert_node
insert_range [] c = c
insert_range (node ∷ nodes) c = insert_range nodes (insert_node c)

unfoldable pub add_span : (span : ℕ) → Store → Store
add_span span c =
    let h1 =
      update_span span (λ (s : Span). record s { prev = 0; next = c.central.nonempty }) c.heap in
    record {
      central = record c.central { nonempty = span };
      heap = set_prev c.central.nonempty span h1;
    }

unfoldable pub update_tc_length : (actual : ℕ) → CentralFreeList → CentralFreeList
update_tc_length actual c =
    let doubled = c.tc_length * 2 % word in
    if leb c.tc_length actual
    then record c { tc_length = if ltb 8192 doubled then 8192 else doubled }
    else if ltb 0 actual
    then record c { tc_length = actual }
    else c
