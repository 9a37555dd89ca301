-- ===== src/Dominance/Tree.antt =====
-- `run` and `runPostDominator`: the immediate dominators and the children, from the solved sets. The
-- map from a block to no dominator and a missing entry are both `none` to every reader. The source
-- visits sets and maps in the order of addresses, here they stand in the order of the lists.
use fyra.Prelude.{
  ℕ, zero, suc, Bool, true, false, not, ◌&&◌, ◌||◌, Option, none, some, List, [], ◌∷◌, ◌++◌, ◌==◌,
  if◌then◌else◌,
}
use fyra.Prelude.Maps.{PointerMap, find, put}
use fyra.Dominance.Sets.{has, erase, range}
use fyra.Dominance.Solve.{Graph, Problem, DomSets, at, solve}

abbrev pub is_empty : List ℕ → Bool
is_empty [] = true
is_empty (b ∷ bs) = false

abbrev pub dominators : Graph → Problem
dominators g = record { size = g.size; is_root = λ b. b == 0; sources = g.predecessors }

abbrev pub post_dominators : Graph → Problem
post_dominators g = record {
  size = g.size;
  is_root = λ b. is_empty (g.successors b);
  sources = g.successors;
}

-- Every other block of the list is in the candidate's set.
abbrev pub is_idom : DomSets → ℕ → List ℕ → Bool
is_idom sets d1 [] = true
is_idom sets d1 (d2 ∷ ds) = (d1 == d2 || has d2 (at sets d1)) && is_idom sets d1 ds

-- No other block of the list is in the candidate's set.
abbrev pub is_ipdom : DomSets → ℕ → List ℕ → Bool
is_ipdom sets d1 [] = true
is_ipdom sets d1 (d2 ∷ ds) = (d1 == d2 || not (has d2 (at sets d1))) && is_ipdom sets d1 ds

-- The first candidate that passes.
abbrev pub first : (ℕ → Bool) → List ℕ → Option ℕ
first passes [] = none
first passes (d ∷ ds) = if passes d then some d else first passes ds

abbrev pub strict : DomSets → ℕ → List ℕ
strict sets b = erase b (at sets b)

unfoldable pub idom_of : Problem → DomSets → ℕ → Option ℕ
idom_of problem sets b =
    if problem.is_root b then none else first (λ d. is_idom sets d (strict sets b)) (strict sets b)

unfoldable pub ipdom_of : Problem → DomSets → ℕ → Option ℕ
ipdom_of problem sets b =
    if problem.is_root b then none else first (λ d. is_ipdom sets d (strict sets b)) (strict sets b)

-- `iDomMap` and `childrenMap`
pub record DominatorTree : Type 0 where
  pub idom_map : PointerMap (Option ℕ)
  pub children_map : PointerMap (List ℕ)

abbrev pub flatten : Option (Option ℕ) → Option ℕ
flatten none = none
flatten (some d) = d

abbrev pub children_of : Option (List ℕ) → List ℕ
children_of none = []
children_of (some bs) = bs

abbrev pub add_child : ℕ → Option ℕ → PointerMap (List ℕ) → PointerMap (List ℕ)
add_child b none map = map
add_child b (some d) map = put d (children_of (find map d) ++ (b ∷ [])) map

unfoldable pub build : (ℕ → Option ℕ) → List ℕ → DominatorTree → DominatorTree
build idom [] tree = tree
build idom (b ∷ bs) tree = build idom bs (record {
  idom_map = put b (idom b) tree.idom_map;
  children_map = add_child b (idom b) tree.children_map;
})

abbrev pub no_tree : DominatorTree
no_tree = record { idom_map = []; children_map = [] }

abbrev pub get_immediate_dominator : DominatorTree → ℕ → Option ℕ
get_immediate_dominator tree b = flatten (find tree.idom_map b)

abbrev pub get_children : DominatorTree → ℕ → List ℕ
get_children tree b = children_of (find tree.children_map b)

abbrev pub tree_of : (DomSets → ℕ → Option ℕ) → ℕ → Option DomSets → Option DominatorTree
tree_of idom size none = none
tree_of idom size (some sets) = some (build (idom sets) (range size) no_tree)

unfoldable pub run : Graph → Option DominatorTree
unfolding solve idom_of build
run g = tree_of (idom_of (dominators g)) g.size (solve (dominators g))

abbrev pub no_exits : Graph → List ℕ → Bool
no_exits g [] = true
no_exits g (b ∷ bs) = not (is_empty (g.successors b)) && no_exits g bs

-- Where no block is an exit, the maps stay as they were.
unfoldable pub run_post_dominator : Graph → DominatorTree → Option DominatorTree
unfolding solve ipdom_of build
run_post_dominator g tree =
    if no_exits g (range g.size)
    then some tree
    else tree_of (ipdom_of (post_dominators g)) g.size (solve (post_dominators g))

abbrev pub reaches : ℕ → (ℕ → Option Bool) → Option ℕ → Option Bool
reaches a rest none = some false
reaches a rest (some d) = if d == a then some true else rest d

-- The loop up the tree; `none` means that the fuel ran out.
unfoldable pub climb : ℕ → DominatorTree → ℕ → ℕ → Option Bool
climb zero tree a b = none
climb (suc fuel) tree a b = reaches a (climb fuel tree a) (get_immediate_dominator tree b)

unfoldable pub dominates : ℕ → DominatorTree → ℕ → ℕ → Option Bool
unfolding climb
dominates fuel tree a b = if a == b then some true else climb fuel tree a b
