-- ===== src/Relocation.antt =====
-- target/artifact/linker/TargetRelocationEvaluator.{h,cpp}: what a relocation does to the bytes of a
-- section. `Encode` has the instruction fields, `Evaluate` the function itself; the children hold the
-- theorems.
mod Kind
mod Encode
mod Evaluate
pub mod Jumps
pub mod Pages
pub mod Writes
pub mod Values
pub mod Results
unfoldable pub use Kind.*
unfoldable pub use Encode.*
unfoldable pub use Evaluate.*
