-- ===== src/Linker/Symbols.antt =====
-- InternalLinker::link, the resolution of symbols: every defined symbol gets its address, and a
-- global name may be defined once.
mod Define
pub mod Listed
pub mod Unique
pub mod Resolved
unfoldable pub use Define.*
