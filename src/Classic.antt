-- ===== src/Classic.antt =====
-- The classic allocators of classic/.
pub mod Tcmalloc
pub mod Ptmalloc
pub mod Jemalloc
