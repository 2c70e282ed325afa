-- ===== src/Adaptive/Services.antt =====
-- src/adaptive_services.cpp: the memory services, from the size classes up.
pub mod Sizes
pub mod PageTable
pub mod State
pub mod Headers
pub mod Caches
pub mod Pages
pub mod Allocate
pub mod Release
