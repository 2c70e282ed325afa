-- ===== src/Classic/Jemalloc.antt =====
-- classic/jemalloc/.
pub mod Extents
pub mod SizeClasses
pub mod Tcache
