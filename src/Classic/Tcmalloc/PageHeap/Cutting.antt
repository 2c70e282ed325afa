-- ===== src/Classic/Tcmalloc/PageHeap/Cutting.antt =====
-- What split_span, a part of alloc_span of classic/tcmalloc/page_heap.cpp, does to the objects.
use my_malloc.Prelude.{
  put, ℕ, ◌+◌, ◌-◌, ◌<◌, ◌≤◌, ◌≡◌, ◌≢◌, refl, sym, ◌∙◌, ap, inl, inr, true, false, arith, ltb, leb,
  ◌==◌, if◌then◌else◌, Bool-cases, if_true, if_false, ne_of, eq_refl, subst,
}
use my_malloc.Classic.Tcmalloc.Span.{Span, zero_span, on_normal_freelist}
use my_malloc.Classic.Tcmalloc.SizeClasses.{k_num_classes}
use my_malloc.Classic.Tcmalloc.PageHeap.{
  PageHeap, set_prev, set_next, set_free, update_span, new_span, push_remainder, split_span,
}
use my_malloc.Classic.Tcmalloc.PageHeap.Valid.{
  View, view, put_same, write_view, view-put, view-set_prev,
}
use my_malloc.Classic.Tcmalloc.PageHeap.Cut.{Cut}

module _ (v : View) (best n : ℕ) where
  -- The rest, as it was made.
  abbrev made : View
  made = record (write_view v.count (v.start best + n) (v.length best - n) 0 true v) {
    count = v.count + 1;
  }

  abbrev linked : (next : ℕ) → View
  linked next =
      write_view v.count (made.start v.count) (made.length v.count) next (made.normal v.count) made

  abbrev shortened : View → View
  shortened w = write_view best (w.start best) n (w.next best) (w.normal best) w

  -- The objects after the call, with the link of the rest and the heads as they may be.
  parts-Cut :
      (next : ℕ) (free : ℕ → ℕ)
      → best ≢ v.count
      → (v.length best - n ≤ 256 → next ≡ v.free (v.length best - n))
      → ((j : ℕ) → j ≤ 256 → free j ≡ (if (v.length best - n) == j then v.count else v.free j))
      → Cut v (shortened (record (linked next) { free = free })) best n
  parts-Cut next free ne link heads =
      let other = ne_of ne in
      let other' = ne_of (λ (e : v.count ≡ best). ne (sym e)) in
      record {
        count = refl;
        mapped = refl;
        same = λ x nr nb.
            let r = ne_of (λ (e : v.count ≡ x). nr (sym e)) in
            let b = ne_of (λ (e : best ≡ x). nb (sym e)) in
            (
              rw (b, r) refl,
              record { length = rw (b, r) refl; next = rw (b, r) refl; normal = rw (b, r) refl },
            );
        kept_start = rw (eq_refl best, other') refl;
        kept_length = rw (eq_refl best) refl;
        rest_start = rw (other, eq_refl v.count) refl;
        rest_length = rw (other, eq_refl v.count) refl;
        rest_normal = rw (other, eq_refl v.count) refl;
        rest_next = λ le. rw (other, eq_refl v.count) (link le);
        heads = heads;
      }

-- Where the rest goes, by its length.
to_list :
    (id k : ℕ) (g : PageHeap)
    → (g.spans id).length ≡ k
    → k ≤ 256
    → push_remainder id g ≡ set_free k id (set_prev (g.free k) id (set_next id (g.free k) g))
unfolding push_remainder
to_list id k g e le =
    let short : leb (g.spans id).length 256 ≡ true = ground arith in
    if_true _ _ short
    ∙ ap (λ (k : ℕ). set_free k id (set_prev (g.free k) id (set_next id (g.free k) g))) e

to_large :
    (id k : ℕ) (g : PageHeap)
    → (g.spans id).length ≡ k
    → 256 < k
    → push_remainder id g ≡ record (set_next id g.large_set g) { large_set = id }
unfolding push_remainder
to_large id k g e lt =
    let long : leb (g.spans id).length 256 ≡ false = ground arith in if_false _ _ long

-- The views after each write of split_span.
module _ (h : PageHeap) (best n : ℕ) where
  abbrev rest : Span
  rest = record zero_span {
    start = (h.spans best).start + n;
    length = (h.spans best).length - n;
    state = on_normal_freelist;
    size_class = k_num_classes;
  }

  abbrev cut_at : ℕ
  cut_at = (h.spans best).length - n

  view-made : view (new_span rest h) ≡ made (view h) best n
  view-made = λ i. record (view-put h.next_span rest h i) { count = h.next_span + 1 }

  view-linked :
      (next : ℕ) → view (set_next h.next_span next (new_span rest h)) ≡ linked (view h) best n next
  view-linked next =
      view-put h.next_span _ (new_span rest h)
      ∙ ap
          (λ (w : View).
            write_view h.next_span (w.start h.next_span) (w.length h.next_span) next
              (w.normal h.next_span) w)
          view-made

  view-shortened :
      (g : PageHeap)
      → view (update_span best (λ (s : Span). record s { length = n }) g)
        ≡ shortened (view h) best n (view g)
  view-shortened g = view-put best (record (g.spans best) { length = n }) g

  rest_length : ((new_span rest h).spans h.next_span).length ≡ cut_at
  rest_length = ap (λ (s : Span). s.length) (put_same h.spans h.next_span rest)

  push_short :
      cut_at ≤ 256
      → view (push_remainder h.next_span (new_span rest h))
        ≡ record (linked (view h) best n (h.free cut_at)) { free = put h.free cut_at h.next_span }
  push_short le =
      ap view (to_list h.next_span cut_at (new_span rest h) rest_length le)
      ∙ ap (λ (w : View). record w { free = put w.free cut_at h.next_span })
          (view-set_prev (h.free cut_at) h.next_span
              (set_next h.next_span (h.free cut_at) (new_span rest h))
            ∙ view-linked (h.free cut_at))

  push_long :
      256 < cut_at
      → view (push_remainder h.next_span (new_span rest h)) ≡ linked (view h) best n h.large_set
  push_long lt =
      ap view (to_large h.next_span cut_at (new_span rest h) rest_length lt)
      ∙ view-linked h.large_set

  split_long :
      n < (h.spans best).length
      → view (split_span best n h)
        ≡ shortened (view h) best n (view (push_remainder h.next_span (new_span rest h)))
  unfolding split_span
  split_long long =
      let more : ltb n (h.spans best).length ≡ true = ground arith in
      rw more (view-shortened (push_remainder h.next_span (new_span rest h)))

  -- split_span cuts a span that is longer than n pages.
  pub split_span-Cut :
      n < (h.spans best).length
      → best ≢ h.next_span
      → Cut (view h) (view (split_span best n h)) best n
  split_span-Cut long ne = elim (Bool-cases (leb cut_at 256)) [
    | inl short ↦
        subst (λ (w : View). Cut (view h) w best n)
          (sym (split_long long ∙ ap (shortened (view h) best n) (push_short (ground arith))))
          (parts-Cut (view h) best n (h.free cut_at) (put h.free cut_at h.next_span) ne (λ le. refl)
            (λ j le. refl))
    | inr large ↦
        let far : 256 < cut_at = ground arith in
        subst (λ (w : View). Cut (view h) w best n)
          (sym (split_long long ∙ ap (shortened (view h) best n) (push_long far)))
          (parts-Cut (view h) best n h.large_set h.free ne (λ le. absurd (omega arith))
            (λ j le. rw (ne_of (λ (e : cut_at ≡ j). absurd (omega (arith, e)))) refl))
  ]
