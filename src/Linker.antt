-- ===== src/Linker.antt =====
-- The static linker.
pub mod Image
pub mod Errors
pub mod Layout
pub mod Symbols
pub mod Entry
pub mod Relocate
pub mod Link
pub mod Lazy
pub mod Plan
