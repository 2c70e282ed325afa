-- ===== src/Classic/Ptmalloc.antt =====
-- classic/ptmalloc/.
pub mod Chunk
pub mod Bins
pub mod Coalesce
pub mod Links
pub mod Tcache
