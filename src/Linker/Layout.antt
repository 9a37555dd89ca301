-- ===== src/Linker/Layout.antt =====
-- InternalLinker::link, the merging of sections: each output section holds the input sections of its
-- name one after the other, each at its alignment, and the loaded ones follow one another in memory.
mod Place
mod Matches
pub mod Stands
mod Step
pub mod Untouched
pub mod Contents
pub mod Sections
pub mod Addresses
unfoldable pub use Place.*
