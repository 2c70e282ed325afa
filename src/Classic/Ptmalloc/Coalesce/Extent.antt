-- ===== src/Classic/Ptmalloc/Coalesce/Extent.antt =====
-- What consolidate_and_free of classic/ptmalloc/coalesce.cpp merges.
use my_malloc.Prelude.{
  ℕ, ◌+◌, ◌-◌, ◌%◌, ◌<◌, ◌≤◌, ◌≡◌, refl, subst, sym, ◌∙◌, ap, inl, inr, arith, Bool, true, false,
  not, ◌&&◌, Option, none, some, if◌then◌else◌, Bool-cases, word,
}
use my_malloc.Classic.Ptmalloc.Chunk.{Chunks, chunk_size, prev_inuse, next_chunk}
use my_malloc.Classic.Ptmalloc.Bins.{Bins}
use my_malloc.Classic.Ptmalloc.Bins.Search.{contains_free_chunk, unlink_free_chunk}
use my_malloc.Classic.Ptmalloc.Bins.Members.{is_some, contains-unlink_free_chunk}
use my_malloc.Classic.Ptmalloc.Coalesce.{
  Arena, Merged, absorbed, chunk_is_free, take_next, forward, prev_is_sane, take_prev, backward,
  merge,
}

-- The bins `left` are the bins b without q, where q is to be taken out, and else b itself.
abbrev pub TakenOut : (fuel q : ℕ) (b : Bins) (out : Bool) (left : Bins) → Type 0
TakenOut fuel q b true left = unlink_free_chunk fuel q b ≡ some left
TakenOut fuel q b false left = left ≡ b

-- The chunk before p is free: the bit of p is clear, the boundary tag is that of a chunk, and that chunk
-- is in a bin of b.
abbrev pub prev_is_free : (fuel p : ℕ) → Bins → Chunks → Bool
prev_is_free fuel p b m =
    not (prev_inuse (m p)) && prev_is_sane p m && contains_free_chunk fuel (p - (m p).prev_size) b

-- The merged chunk is p with the next chunk, just if that is free, and with the one before it, just if
-- that is free once the next has left its bin. The chunks that are merged leave their bins.
pub record IsMerged (fuel p : ℕ) (a : Arena) (r : Merged) : Type 0 where
  pub left : Bins
  pub next_out :
      let next = next_chunk p a.chunks in TakenOut fuel next a.bins (chunk_is_free fuel next a) left
  pub prev_out :
      TakenOut fuel
        (p - (a.chunks p).prev_size)
        left
        (prev_is_free fuel p left a.chunks)
        r.arena.bins
  pub starts :
      r.chunk + (if prev_is_free fuel p left a.chunks then (a.chunks p).prev_size else 0) ≡ p
  pub sum :
      let next = next_chunk p a.chunks in
      let after = if chunk_is_free fuel next a then chunk_size (a.chunks next) else 0 in
      let before = if prev_is_free fuel p left a.chunks then (a.chunks p).prev_size else 0 in
      r.size ≡ ((chunk_size (a.chunks p) + after) % word + before) % word
  pub same : r.arena.chunks ≡ a.chunks
  pub top : r.arena.top ≡ a.top

-- What the forward merge returns.
record IsForward (fuel p psize : ℕ) (a : Arena) (r : ℕ × Arena) : Type 0 where
  sum :
      let next = next_chunk p a.chunks in
      r.0 ≡ (psize + (if chunk_is_free fuel next a then chunk_size (a.chunks next) else 0)) % word
  next_out :
      let next = next_chunk p a.chunks in
      TakenOut fuel next a.bins (chunk_is_free fuel next a) r.1.bins
  same : r.1.chunks ≡ a.chunks
  top : r.1.top ≡ a.top

-- A chunk that is found free can be taken out: the bit is never cleared.
take_next-IsForward :
    (fuel p psize : ℕ) (a : Arena) (o : Option Bins)
    → is_some o ≡ true
    → unlink_free_chunk fuel (next_chunk p a.chunks) a.bins ≡ o
    → chunk_is_free fuel (next_chunk p a.chunks) a ≡ true
    → IsForward fuel p psize a (take_next p psize a o)
unfolding take_next absorbed
take_next-IsForward fuel p psize a none found out is = absurd (ground arith)
take_next-IsForward fuel p psize a (some bins) found out is = record {
  sum = rw is refl;
  next_out = rw is out;
  same = refl;
  top = refl;
}

free_found :
    (fuel p : ℕ) (a : Arena)
    → chunk_is_free fuel p a ≡ true
    → is_some (unlink_free_chunk fuel p a.bins) ≡ true
unfolding chunk_is_free
free_found fuel p a is = contains-unlink_free_chunk fuel p a.bins ∙ ground arith

forward-IsForward :
    (fuel p psize : ℕ) (a : Arena)
    → psize < word
    → IsForward fuel p psize a (forward fuel p psize a)
unfolding forward
forward-IsForward fuel p psize a lt =
    let next = next_chunk p a.chunks in
    elim (Bool-cases (chunk_is_free fuel next a)) [
      | inl is ↦ rw is (
          take_next-IsForward fuel p psize a (unlink_free_chunk fuel next a.bins)
            (free_found fuel next a is) refl is)
      | inr isnt ↦ rw isnt (record {
        sum = rw isnt (omega (arith, lt));
        next_out = rw isnt refl;
        same = refl;
        top = refl;
      })
    ]

-- What the backward merge returns.
record IsBackward (fuel p psize : ℕ) (m : Chunks) (b : Bins) (top : ℕ) (r : Merged) : Type 0 where
  prev_out : TakenOut fuel (p - (m p).prev_size) b (prev_is_free fuel p b m) r.arena.bins
  starts : r.chunk + (if prev_is_free fuel p b m then (m p).prev_size else 0) ≡ p
  sum : r.size ≡ (psize + (if prev_is_free fuel p b m then (m p).prev_size else 0)) % word
  same : r.arena.chunks ≡ m
  same_top : r.arena.top ≡ top

IsBackward-none :
    (fuel p psize : ℕ) (a : Arena)
    → psize < word
    → prev_is_free fuel p a.bins a.chunks ≡ false
    → IsBackward fuel p psize a.chunks a.bins a.top (record { chunk = p; size = psize; arena = a })
IsBackward-none fuel p psize a lt used = record {
  prev_out = rw used refl;
  starts = rw used (omega arith);
  sum = rw used (omega (arith, lt));
  same = refl;
  same_top = refl;
}

sane_below : (p : ℕ) (a : Arena) → prev_is_sane p a.chunks ≡ true → (a.chunks p).prev_size ≤ p
unfolding prev_is_sane
sane_below p a sane = ground (arith, sane)

take_prev-IsBackward :
    (fuel p psize : ℕ) (a : Arena) (o : Option Bins)
    → psize < word
    → unlink_free_chunk fuel (p - (a.chunks p).prev_size) a.bins ≡ o
    → prev_is_free fuel p a.bins a.chunks ≡ is_some o
    → prev_is_sane p a.chunks ≡ true
    → IsBackward fuel p psize a.chunks a.bins a.top (take_prev p psize a o)
unfolding take_prev absorbed
take_prev-IsBackward fuel p psize a none lt out free sane = IsBackward-none fuel p psize a lt free
take_prev-IsBackward fuel p psize a (some bins) lt out free sane = record {
  prev_out = rw free out;
  starts = rw free (omega (arith, sane_below p a sane));
  sum = rw free refl;
  same = refl;
  same_top = refl;
}

backward-IsBackward :
    (fuel p psize : ℕ) (a : Arena)
    → psize < word
    → IsBackward fuel p psize a.chunks a.bins a.top (backward fuel p psize a)
unfolding backward
backward-IsBackward fuel p psize a lt =
    let prev = p - (a.chunks p).prev_size in
    elim (Bool-cases (prev_inuse (a.chunks p))) [
      | inl used ↦ rw used (IsBackward-none fuel p psize a lt (rw used refl))
      | inr free ↦ elim (Bool-cases (prev_is_sane p a.chunks)) [
        | inl sane ↦
            rw (free, sane)
              (take_prev-IsBackward fuel p psize a (unlink_free_chunk fuel prev a.bins) lt refl
                (rw (free, sane) (sym (contains-unlink_free_chunk fuel prev a.bins))) sane)
        | inr bad ↦ rw (free, bad) (IsBackward-none fuel p psize a lt (rw (free, bad) refl))
      ]
    ]

pub merge-IsMerged :
    (fuel p : ℕ) (a : Arena) → chunk_size (a.chunks p) < word → IsMerged fuel p a (merge fuel p a)
unfolding merge
merge-IsMerged fuel p a lt =
    let (psize, a') = forward fuel p (chunk_size (a.chunks p)) a in
    let f = forward-IsForward fuel p (chunk_size (a.chunks p)) a lt in
    let b =
      subst (λ m. IsBackward fuel p psize m a'.bins a'.top (merge fuel p a)) f.same
        (backward-IsBackward fuel p psize a' (omega (arith, f.sum))) in
    let before : ℕ = if prev_is_free fuel p a'.bins a.chunks then (a.chunks p).prev_size else 0 in
    record {
      left = a'.bins;
      next_out = f.next_out;
      prev_out = b.prev_out;
      starts = b.starts;
      sum = b.sum ∙ ap (λ k. (k + before) % word) f.sum;
      same = b.same;
      top = b.same_top ∙ f.top;
    }
