-- ===== src/Dominance/Frontier.antt =====
-- include/transforms/DominanceFrontier.h and src/transforms/DominanceFrontier.cpp. `none` means that
-- the fuel ran out.
use fyra.Prelude.{
  ℕ, zero, suc, Bool, true, false, Option, none, some, List, [], ◌∷◌, ◌==◌, leb, length,
  if◌then◌else◌,
}
use fyra.Prelude.Maps.{put}
use fyra.Dominance.Sets.{insert, range}
use fyra.Dominance.Solve.{Graph, DomSets, at}
use fyra.Dominance.Tree.{DominatorTree, get_immediate_dominator}

abbrev pub same_block : Option ℕ → Option ℕ → Bool
same_block none none = true
same_block none (some b) = false
same_block (some a) none = false
same_block (some a) (some b) = a == b

abbrev pub add_frontier : ℕ → ℕ → DomSets → DomSets
add_frontier runner b frontiers = put runner (insert b (at frontiers runner)) frontiers

-- From a predecessor up to the immediate dominator of the block.
unfoldable pub walk_up : ℕ → DominatorTree → ℕ → Option ℕ → DomSets → Option DomSets
walk_up zero tree b runner frontiers = none
walk_up (suc fuel) tree b none frontiers = some frontiers
walk_up (suc fuel) tree b (some r) frontiers =
    let rest = walk_up fuel tree b (get_immediate_dominator tree r) (add_frontier r b frontiers) in
    if same_block (some r) (get_immediate_dominator tree b) then some frontiers else rest

abbrev pub then_walk : (DomSets → Option DomSets) → Option DomSets → Option DomSets
then_walk next none = none
then_walk next (some frontiers) = next frontiers

unfoldable pub over_predecessors : ℕ → DominatorTree → ℕ → List ℕ → DomSets → Option DomSets
unfolding walk_up
over_predecessors fuel tree b [] frontiers = some frontiers
over_predecessors fuel tree b (p ∷ ps) frontiers =
    then_walk (over_predecessors fuel tree b ps) (walk_up fuel tree b (some p) frontiers)

-- Only blocks with two predecessors or more are visited.
unfoldable pub over_blocks : ℕ → Graph → DominatorTree → List ℕ → DomSets → Option DomSets
unfolding over_predecessors
over_blocks fuel g tree [] frontiers = some frontiers
over_blocks fuel g tree (b ∷ bs) frontiers = then_walk (over_blocks fuel g tree bs) (
    if leb 2 (length (g.predecessors b))
    then over_predecessors fuel tree b (g.predecessors b) frontiers
    else some frontiers)

unfoldable pub run_frontier : ℕ → Graph → DominatorTree → Option DomSets
unfolding over_blocks
run_frontier fuel g tree = over_blocks fuel g tree (range g.size) []

abbrev pub get_frontier : DomSets → ℕ → List ℕ
get_frontier frontiers b = at frontiers b
