-- ===== src/Classic/Tcmalloc.antt =====
-- classic/tcmalloc/.
pub mod Api
pub mod SizeClasses
pub mod PageMap
pub mod Span
pub mod PageHeap
pub mod Central
pub mod ThreadCache
