-- ===== src/Classic/Tcmalloc/Central/Lost.antt =====
-- insert_range of classic/tcmalloc/central_freelist.cpp does not link the nodes that it is given.
use my_malloc.Prelude.{
  ℕ, ◌+◌, ◌-◌, ◌%◌, ◌^◌, if_true, if_false, ◌≡◌, refl, ◌∙◌, ap, inl, inr, not, List, [], ◌∷◌, ◌==◌,
  Bool-cases,
}
use my_malloc.Classic.Tcmalloc.Span.{Span}
use my_malloc.Classic.Tcmalloc.PageHeap.{PageHeap, set_prev, set_next, update_span}
use my_malloc.Classic.Tcmalloc.PageHeap.Valid.{put_keeps}
use my_malloc.Classic.Tcmalloc.Central.{
  Store, has_span, chosen, supplied, move_to_nonempty, insert_node, insert_range,
}
use my_malloc.Classic.Tcmalloc.Central.Chain.{set_prev_member}

abbrev pub SameNodes : PageHeap → PageHeap → Type 0
SameNodes h h' = (y : ℕ) → (h'.spans y).freelist ≡ (h.spans y).freelist

-- A write to a span that leaves its chain alone.
pub update_nodes :
    (id : ℕ) (f : Span → Span) (h : PageHeap)
    → ((s : Span) → (f s).freelist ≡ s.freelist)
    → SameNodes h (update_span id f h)
update_nodes id f h keeps y =
    λ i. put_keeps (λ (s : Span). s.freelist) h.spans id (f (h.spans id)) (keeps (h.spans id)) i y

pub set_prev_nodes : (a b : ℕ) (h : PageHeap) → SameNodes h (set_prev a b h)
set_prev_nodes a b h y = set_prev_member (λ (s : Span). s.freelist) a b y h (λ s. refl)

move_nodes : (c : Store) → SameNodes c.heap (move_to_nonempty c).heap
unfolding move_to_nonempty
move_nodes c y =
    let span = c.central.empty in
    let h0 = set_prev (c.heap.spans span).next 0 c.heap in
    let h1 = set_next span c.central.nonempty h0 in
    let h2 = set_prev c.central.nonempty span h1 in
    update_nodes span (λ (s : Span). record s { prev = 0 }) h2 (λ s. refl) y
    ∙ set_prev_nodes c.central.nonempty span h1 y
    ∙ update_nodes span (λ (s : Span). record s { next = c.central.nonempty }) h0 (λ s. refl) y
    ∙ set_prev_nodes (c.heap.spans span).next 0 c.heap y

supplied_nodes : (c : Store) → SameNodes c.heap (supplied c).heap
unfolding supplied
supplied_nodes c y = elim (Bool-cases (has_span c)) [
  | inl e ↦ ap (λ (d : Store). (d.heap.spans y).freelist) (if_true _ _ e)
  | inr e ↦
      ap (λ (d : Store). (d.heap.spans y).freelist) (if_false _ _ e)
      ∙ elim (Bool-cases (not (c.central.empty == 0))) [
        | inl more ↦
            ap (λ (d : Store). (d.heap.spans y).freelist) (if_true _ _ more) ∙ move_nodes c y
        | inr end ↦ ap (λ (d : Store). (d.heap.spans y).freelist) (if_false _ _ end)
      ]
]

insert_node-nodes : (c : Store) → SameNodes c.heap (insert_node c).heap
unfolding insert_node
insert_node-nodes c y = elim (Bool-cases (chosen c == 0)) [
  | inl e ↦ ap (λ (d : Store). (d.heap.spans y).freelist) (if_true _ _ e) ∙ supplied_nodes c y
  | inr e ↦
      ap (λ (d : Store). (d.heap.spans y).freelist) (if_false _ _ e)
      ∙ update_nodes (chosen c)
          (λ (s : Span). record s { refcount = (s.refcount + (2 ^ 32 - 1)) % 2 ^ 32 })
          (supplied c).heap (λ s. refl) y
      ∙ supplied_nodes c y
]

-- No chain of a span gains a node from insert_range.
pub insert_range-nodes : (nodes : List ℕ) (c : Store) → SameNodes c.heap (insert_range nodes c).heap
unfolding insert_range
insert_range-nodes [] c y = refl
insert_range-nodes (node ∷ nodes) c y =
    insert_range-nodes nodes (insert_node c) y ∙ insert_node-nodes c y
