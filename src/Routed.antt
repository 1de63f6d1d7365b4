-- ===== src/Routed.antt =====
-- The routed mesh, internal/routed.
pub mod Frame
pub mod Window
pub mod Session
pub mod Config
pub mod Transit
pub mod Selection
pub mod Router
pub mod Samples
