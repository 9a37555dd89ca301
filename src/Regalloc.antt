-- ===== src/Regalloc.antt =====
-- include/codegen/regalloc and src/codegen/regalloc/LinearScanAllocator.cpp: registers for the values
-- of a function, by a linear scan over their live intervals.
mod Interval
mod Pools
mod Scan
pub mod Counts
pub mod Members
pub mod Sound
pub mod Given
pub mod Taken
pub mod Disjoint
pub mod Calls
pub mod Crossing
pub mod Run
unfoldable pub use Interval.*
unfoldable pub use Pools.*
unfoldable pub use Scan.*
