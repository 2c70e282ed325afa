-- ===== src/Classic/Ptmalloc/Links.antt =====
-- classic/ptmalloc/bins.h and bins.cpp, BinList: circular lists through the words fd and bk of chunks. The
-- memory of those words is a pair of maps from addresses; a bin is the address as_chunk() of its sentinel.
pub mod Push
pub mod Ring
pub mod Unlink
use my_malloc.Prelude.{ℕ, Bool, not, ◌&&◌, ◌==◌, if◌then◌else◌, put}

pub record Links : Type 0 where
  pub fd : ℕ → ℕ
  pub bk : ℕ → ℕ

abbrev pub set_fd : (p v : ℕ) → Links → Links
set_fd p v l = record l { fd = put l.fd p v }

abbrev pub set_bk : (p v : ℕ) → Links → Links
set_bk p v l = record l { bk = put l.bk p v }

unfoldable pub init : (sentinel : ℕ) → Links → Links
init sentinel l = set_fd sentinel sentinel (set_bk sentinel sentinel l)

unfoldable pub empty : (sentinel : ℕ) → Links → Bool
empty sentinel l = l.fd sentinel == sentinel

unfoldable pub push_front : (sentinel p : ℕ) → Links → Links
push_front sentinel p l =
    let first = l.fd sentinel in
    let l = set_fd sentinel p (set_bk p sentinel (set_fd p first l)) in
    if first == 0 then l else set_bk first p l

unfoldable pub push_back : (sentinel p : ℕ) → Links → Links
push_back sentinel p l =
    let last = l.bk sentinel in
    let l = set_bk sentinel p (set_bk p last (set_fd p sentinel l)) in
    if last == 0 then l else set_fd last p l

-- The check that the neighbours of p lead to it.
unfoldable pub well_linked : (p : ℕ) → Links → Bool
well_linked p l =
    not (l.fd p == 0) && (l.bk (l.fd p) == p) && not (l.bk p == 0) && (l.fd (l.bk p) == p)

unfoldable pub unlink : (p : ℕ) → Links → Links
unlink p l = if well_linked p l then set_fd (l.bk p) (l.fd p) (set_bk (l.fd p) (l.bk p) l) else l

-- The null pointer is 0.
unfoldable pub pop_front : (sentinel : ℕ) → Links → ℕ × Links
pop_front sentinel l =
    if empty sentinel l then (0, l) else (l.fd sentinel, unlink (l.fd sentinel) l)
