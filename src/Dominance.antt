-- ===== src/Dominance.antt =====
-- include/transforms/DominatorTree.h and src/transforms/DominatorTree.cpp: dominators and
-- post-dominators of the blocks of a function.
mod Sets
mod Solve
mod Tree
pub mod Members
pub mod Walks
pub mod Passes
pub mod Correct
pub mod Fuel
pub mod Terminates
pub mod Immediate
pub mod Run
pub mod Post
pub mod Query
pub mod Climb
mod Frontier
pub mod Runner
pub mod Meets
pub mod Entered
pub mod Frontiers
unfoldable pub use Sets.*
unfoldable pub use Solve.*
unfoldable pub use Tree.*
unfoldable pub use Frontier.*
