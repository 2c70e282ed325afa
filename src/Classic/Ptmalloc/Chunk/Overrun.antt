-- ===== src/Classic/Ptmalloc/Chunk/Overrun.antt =====
-- What request2size of classic/ptmalloc/chunk.h leaves for the block of a chunk.
use my_malloc.Prelude.{
  ℕ, ◌+◌, ◌*◌, ◌/◌, ◌%◌, ◌<◌, ◌≤◌, ◌≡◌, refl, ◌∙◌, ap, ◌⊎◌, inl, inr, true, false, arith, ltb,
  Bool-cases, if_true, eq_refl, word, bit_or, bit_or-low,
}
use my_malloc.Classic.Ptmalloc.Chunk.{
  Chunk, Chunks, chunk_size, flags, set_head, next_chunk, user_data, from_user_ptr, request2size,
}

-- A size for a request: room for it and for one word of the header, in units of 16.
pub record SizeFor (req size : ℕ) : Type 0 where
  pub unit : size % 16 ≡ 0
  pub minimum : 32 ≤ size
  pub room : req + 8 ≤ size
  pub least : (other : ℕ) → other % 16 ≡ 0 → 32 ≤ other → req + 8 ≤ other → size ≤ other
  pub close : (size ≡ 32) ⊎ (size ≤ req + 23)

-- request2size of a request below 2^64: where request + 23 does not wrap around, a multiple of 16 from 32
-- on with at least 8 bytes more than the request, and the least such size; where it does, 32.
pub request2size_lem :
    (req : ℕ)
    → req < word
    → ((req + 23 < word) × SizeFor req (request2size req))
      ⊎ ((word ≤ req + 23) × (request2size req ≡ 32))
unfolding request2size
request2size_lem req small = elim (Bool-cases (ltb (req + 23) word)) [
  | inr huge ↦
      let wrapped : ltb ((req + 8 + 15) % word) 32 ≡ true = ground arith in
      inr (ground arith, rw wrapped refl)
  | inl fits ↦
      let lt : req + 23 < word = ground arith in
      elim (Bool-cases (ltb ((req + 8 + 15) % word) 32)) [
        | inl little ↦
            let le : (req + 8 + 15) % word < 32 = ground arith in
            inl (
              lt,
              rw little record {
                unit = refl;
                minimum = omega arith;
                room = omega arith;
                least = λ other unit above room. above;
                close = inl refl;
              },
            )
        | inr more ↦
            let ge : 32 ≤ (req + 8 + 15) % word = ground arith in
            let high : ltb ((req + 8 + 15) % word / 16 * 16) 32 ≡ false = ground arith in
            inl (
              lt,
              rw (more, high)
                  record {
                    unit = omega arith;
                    minimum = omega arith;
                    room = omega arith;
                    least = λ other unit above room. omega arith;
                    close = inr (omega arith);
                  },
            )
      ]
]

-- The head of a chunk at p for a request: the size and the flags read back, and the user pointer leads
-- back to p. The next chunk starts before the end of the block, since a block starts 48 bytes after its
-- chunk and request2size adds less than that. Flags are below 8, and p + 48 + req and req + 23 below 2^64.
pub next_chunk-request2size :
    (p req f : ℕ) (m : Chunks)
    → f < 8
    → p + 48 + req < word
    → req + 23 < word
    → (chunk_size (set_head p (request2size req) f m p) ≡ request2size req)
      × (flags (set_head p (request2size req) f m p) ≡ f)
      × (from_user_ptr (user_data p) ≡ p)
      × (next_chunk p (set_head p (request2size req) f m) < user_data p + req)
unfolding set_head
next_chunk-request2size p req f m few inside small = elim (request2size_lem req (omega arith)) [
  | inr (wraps, e) ↦ absurd (omega arith)
  | inl (lt, size) ↦
      let r = request2size req in
      let or : bit_or r f ≡ r + f = bit_or-low r f (omega (arith, size.unit)) few in
      let at : (set_head p r f m p).size ≡ r + f =
        ap (λ (c : Chunk). c.size) (if_true (record (m p) { size = bit_or r f }) (m p) (eq_refl p))
        ∙ or in
      let whole : chunk_size (set_head p r f m p) ≡ r = omega (arith, at, size.unit, few) in
      let below : r ≤ req + 32 = elim size.close [
        | inl e ↦ omega (arith, e)
        | inr le ↦ omega (arith, le)
      ] in
      (
        whole,
        omega (arith, at, size.unit, few),
        omega (arith, inside),
        omega (arith, whole, below, inside),
      )
]
