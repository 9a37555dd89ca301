-- ===== src/Word.antt =====
-- The unsigned and signed 64-bit arithmetic of C++ on native numbers, `&` and `|` as arithmetic, and
-- `alignUp`.
mod Ops
mod Digits
mod Align
pub use Ops.*
pub use Digits.*
unfoldable pub use Align.*
