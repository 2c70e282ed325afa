-- ===== src/Adaptive.antt =====
-- The adaptive allocator, src/*.cpp: one module for each source file, over the shared types.
pub mod Types
pub mod Runtime
pub mod Modes
pub mod Doubles
pub mod ModelTable
pub mod ModelSelector
pub mod Telemetry
pub mod Services
pub mod Selector
pub mod Allocator
