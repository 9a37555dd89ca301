-- ===== src/Tests/Blocks.antt =====
-- A diamond: 0 → 1, 2; 1, 2 → 3; and a chain with two post-dominators.
use fyra.Prelude.{
  ℕ, zero, suc, ◌≡◌, ◌<◌, refl, arith, ◌↔◌, true, some, List, [], ◌∷◌, ◌==◌, ==_iff, if◌then◌else◌,
}
use fyra.Dominance.{
  run_frontier, get_frontier, dominates, Graph, dominators, post_dominators, has, at, solve, run,
  get_immediate_dominator, ipdom_of, run_post_dominator, build, idom_of, DomSets, DominatorTree,
  no_tree, range,
}
use fyra.Dominance.Walks.{start, step, Dominates, Closed, AllReached}
use fyra.Dominance.Correct.{solve-Dominates}
use fyra.Dominance.Terminates.{solve-some}
use fyra.Dominance.Run.{ImmediatelyDominates, run-ImmediatelyDominates}
use fyra.Dominance.Climb.{Decides, dominates-Decides}
use fyra.Dominance.Entered.{ReachedWithin}
use fyra.Dominance.Frontiers.{Meets, run_frontier-Meets}
use fyra.Dominance.Post.{FarthestDominates, run_post_dominator-FarthestDominates}

abbrev entered_from : ℕ → List ℕ
entered_from b = if b == 0 then [] else if b == 3 then 1 ∷ 2 ∷ [] else 0 ∷ []

abbrev left_to : ℕ → List ℕ
left_to b = if b == 0 then 1 ∷ 2 ∷ [] else if b == 3 then [] else 3 ∷ []

abbrev diamond : Graph
diamond = record { size = 4; predecessors = entered_from; successors = left_to }

diamond-Closed : Closed (dominators diamond)
diamond-Closed p b small h =
    ground (arith, ==_iff b 0, ==_iff b 3, ==_iff 0 p, ==_iff 1 p, ==_iff 2 p)

diamond-AllReached : AllReached (dominators diamond)
diamond-AllReached zero small = (_, start 0 refl)
diamond-AllReached (suc zero) small = (_, step 0 1 _ (start 0 refl) refl)
diamond-AllReached (suc (suc zero)) small = (_, step 0 2 _ (start 0 refl) refl)
diamond-AllReached (suc (suc (suc zero))) small =
    (_, step 1 3 _ (step 0 1 _ (start 0 refl) refl) refl)
diamond-AllReached (suc (suc (suc (suc b)))) small = absurd (omega (arith, small))

abbrev diamond_sets : DomSets
diamond_sets =
    (3, 3 ∷ 0 ∷ [])
    ∷ (2, 2 ∷ 0 ∷ [])
    ∷ (1, 1 ∷ 0 ∷ [])
    ∷ (0, 0 ∷ [])
    ∷ (1, 0 ∷ 1 ∷ 2 ∷ 3 ∷ [])
    ∷ (2, 0 ∷ 1 ∷ 2 ∷ 3 ∷ [])
    ∷ (3, 0 ∷ 1 ∷ 2 ∷ 3 ∷ [])
    ∷ []

solve-some_example : (sets : DomSets) × (solve (dominators diamond) ≡ some sets)
solve-some_example = solve-some (dominators diamond)

diamond_solved : solve (dominators diamond) ≡ some diamond_sets
unfolding solve
diamond_solved = refl

solve-Dominates_example : (has 0 (at diamond_sets 3) ≡ true) ↔ Dominates (dominators diamond) 0 3
solve-Dominates_example =
    solve-Dominates (dominators diamond) diamond_sets 3 0 diamond-Closed diamond-AllReached
      (omega arith) (omega arith) diamond_solved

abbrev diamond_tree : DominatorTree
diamond_tree = build (idom_of (dominators diamond) diamond_sets) (range 4) no_tree

diamond_runs : run diamond ≡ some diamond_tree
unfolding run
diamond_runs = refl

run-ImmediatelyDominates_example :
    (get_immediate_dominator diamond_tree 3 ≡ some 0)
    ↔ ImmediatelyDominates (dominators diamond) 0 3
run-ImmediatelyDominates_example =
    run-ImmediatelyDominates diamond diamond_tree 3 0 diamond-Closed diamond-AllReached diamond_runs
      (omega arith) (omega arith)

-- 0 → 1 → 2
abbrev next_block : ℕ → List ℕ
next_block b = if b == 0 then 1 ∷ [] else if b == 1 then 2 ∷ [] else []

abbrev chain : Graph
chain = record { size = 3; predecessors = λ b. []; successors = next_block }

chain-Closed : Closed (post_dominators chain)
chain-Closed p b small h = ground (arith, ==_iff b 0, ==_iff b 1, ==_iff 1 p, ==_iff 2 p)

chain-AllReached : AllReached (post_dominators chain)
chain-AllReached zero small = (_, step 1 0 _ (step 2 1 _ (start 2 refl) refl) refl)
chain-AllReached (suc zero) small = (_, step 2 1 _ (start 2 refl) refl)
chain-AllReached (suc (suc zero)) small = (_, start 2 refl)
chain-AllReached (suc (suc (suc b))) small = absurd (omega (arith, small))

abbrev chain_sets : DomSets
chain_sets = (1, 1 ∷ 2 ∷ []) ∷ (0, 0 ∷ 1 ∷ 2 ∷ []) ∷ (1, 0 ∷ 1 ∷ 2 ∷ []) ∷ (2, 2 ∷ []) ∷ []

abbrev chain_tree : DominatorTree
chain_tree = build (ipdom_of (post_dominators chain) chain_sets) (range 3) no_tree

chain_runs : run_post_dominator chain no_tree ≡ some chain_tree
unfolding run_post_dominator
chain_runs = refl

chain_farthest : get_immediate_dominator chain_tree 0 ≡ some 2
unfolding build ipdom_of
chain_farthest = refl

run_post_dominator-FarthestDominates_example : FarthestDominates (post_dominators chain) 2 0
run_post_dominator-FarthestDominates_example =
    run_post_dominator-FarthestDominates chain no_tree chain_tree 0 2 chain-Closed chain-AllReached
      chain_runs (omega arith) chain_farthest

dominates-Decides_example :
    Decides (dominates 3 diamond_tree 0 3) (Dominates (dominators diamond) 0 3)
dominates-Decides_example =
    dominates-Decides diamond diamond_tree 3 0 3 (3 ∷ 1 ∷ 0 ∷ []) diamond-Closed diamond-AllReached
      diamond_runs (omega arith) (omega arith) (step 1 3 _ (step 0 1 _ (start 0 refl) refl) refl)
      (omega arith)

diamond-ReachedWithin : ReachedWithin 4 (dominators diamond)
diamond-ReachedWithin zero small = (_, (start 0 refl, omega arith))
diamond-ReachedWithin (suc zero) small = (_, (step 0 1 _ (start 0 refl) refl, omega arith))
diamond-ReachedWithin (suc (suc zero)) small = (_, (step 0 2 _ (start 0 refl) refl, omega arith))
diamond-ReachedWithin (suc (suc (suc zero))) small =
    (_, (step 1 3 _ (step 0 1 _ (start 0 refl) refl) refl, omega arith))
diamond-ReachedWithin (suc (suc (suc (suc b)))) small = absurd (omega (arith, small))

run_frontier-Meets_example :
    (frontiers : DomSets) × ((run_frontier 4 diamond diamond_tree ≡ some frontiers)
      × ((c x : ℕ) → c < 4 → x < 4 → (has c (get_frontier frontiers x) ≡ true) ↔ Meets diamond x c))
run_frontier-Meets_example =
    run_frontier-Meets diamond diamond_tree 4 diamond-Closed diamond-ReachedWithin diamond_runs
