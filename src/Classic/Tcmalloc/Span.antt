-- ===== src/Classic/Tcmalloc/Span.antt =====
-- classic/tcmalloc/span.h: a contiguous run of pages. A chain of FreeNode links is the list of the
-- addresses in it; a pointer to a Span is the number of the object, and 0 is the null pointer.
use my_malloc.Prelude.{
  ℕ, zero, suc, ◌+◌, ◌*◌, ◌/◌, ◌%◌, ◌^◌, Bool, List, [], ◌∷◌, ◌&&◌, true, false, ltb, leb, word,
}

abbrev pub k_page_size : ℕ
k_page_size = 8192

abbrev pub k_page_shift : ℕ
k_page_shift = 13

pub data SpanState : Type 0 where
  in_use : SpanState
  on_normal_freelist : SpanState
  on_returned_freelist : SpanState

abbrev pub is_normal : SpanState → Bool
is_normal on_normal_freelist = true
is_normal _ = false

pub record Span : Type 0 where
  pub start : ℕ
  pub length : ℕ
  pub size_class : ℕ
  pub state : SpanState
  pub refcount : ℕ
  pub freelist : List ℕ
  pub prev : ℕ
  pub next : ℕ

-- `new Span()` zeroes the object.
abbrev pub zero_span : Span
zero_span = record {
  start = 0;
  length = 0;
  size_class = 0;
  state = in_use;
  refcount = 0;
  freelist = [];
  prev = 0;
  next = 0;
}

abbrev pub page_number : ℕ → ℕ
page_number p = p / 2 ^ k_page_shift

abbrev pub page_addr : ℕ → ℕ
page_addr pn = pn * 2 ^ k_page_shift % word

pub contains_page : (pn : ℕ) → Span → Bool
contains_page pn s = leb s.start pn && ltb pn (s.start + s.length)

-- The chain after the first n rounds of the loop, which puts each object before the others.
pub chain_of : (base object_size n : ℕ) → List ℕ
chain_of base object_size zero = []
chain_of base object_size (suc n) = (base + n * object_size) ∷ chain_of base object_size n

unfoldable pub build_freelist : (object_size : ℕ) → Span → Span
unfolding chain_of
build_freelist object_size s = record s {
  freelist = chain_of (page_addr s.start) object_size (s.length * k_page_size % word / object_size);
  refcount = 0;
}
