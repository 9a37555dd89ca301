-- ===== src/Egraph.antt =====
-- include/transforms/EGraph.h, UnionFind: the classes of equal values in an e-graph.
pub mod UnionFind
pub mod Roots
pub mod Merge
