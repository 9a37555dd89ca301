-- ===== src/Dominance/Correct.antt =====
-- The solved sets are the dominators.
use fyra.Prelude.{
  ℕ, suc, ◌*◌, ◌<◌, ◌≡◌, arith, inl, inr, ◌↔◌, true, false, some, [], ◌∷◌, ◌==◌, ==_iff, Bool-cases,
}
use fyra.Dominance.Sets.{has, range}
use fyra.Dominance.Solve.{Problem, DomSets, at, initial_set, initial_sets, new_set, solve}
use fyra.Dominance.Members.{has-range, range-has, at-put, at-initial_sets}
use fyra.Dominance.Walks.{
  start, Dominates, Rooted, Includes, Closed, AllReached, Walk-Dominates, new_set-Includes,
}
use fyra.Dominance.Passes.{Kept, iterate-keeps}

at-initial :
    (problem : Problem) (b : ℕ)
    → b < problem.size
    → at (initial_sets problem (range problem.size)) b ≡ initial_set problem b
at-initial problem b small =
    let e = at-initial_sets problem b (range problem.size) in
    rw (range-has b problem.size small) at e

at-initial_large :
    (problem : Problem) (b : ℕ)
    → has b (range problem.size) ≡ false
    → at (initial_sets problem (range problem.size)) b ≡ []
at-initial_large problem b large =
    let e = at-initial_sets problem b (range problem.size) in rw large at e

Kept-Rooted : (problem : Problem) → Kept problem (Rooted problem)
Kept-Rooted problem sets b small (other, differ) rooted r d root h = elim (Bool-cases (b == r)) [
  | inl same ↦
      let s : b ≡ r = ground (arith, ==_iff b r) in let root' = rw (← s) at root in absurd (cc)
  | inr apart ↦
      let h' = rw (at-put b r (new_set problem sets b) sets, apart) at h in rooted r d root h'
]

initial_sets-Rooted :
    (problem : Problem) → Rooted problem (initial_sets problem (range problem.size))
initial_sets-Rooted problem r d root h = elim (Bool-cases (has r (range problem.size))) [
  | inr large ↦ let h' = rw (at-initial_large problem r large) at h in absurd (cc)
  | inl small ↦
      let h' = rw (at-initial problem r (has-range r problem.size small), root) at h in
      ground (arith, ==_iff r d)
]

Kept-Includes :
    (problem : Problem) → Closed problem → AllReached problem → Kept problem (Includes problem)
Kept-Includes problem closed reached sets b small (other, differ) includes c d small_c small_d
      dominates =
    elim (Bool-cases (b == c)) [
      | inl same ↦
          let s : b ≡ c = ground (arith, ==_iff b c) in
          let dominates' : Dominates problem d b = rw s dominates in
          rw (at-put b c (new_set problem sets b) sets, same)
            (new_set-Includes problem sets b d closed reached includes small small_d other
              dominates')
      | inr apart ↦
          rw (at-put b c (new_set problem sets b) sets, apart)
            (includes c d small_c small_d dominates)
    ]

initial_sets-Includes :
    (problem : Problem) → Includes problem (initial_sets problem (range problem.size))
initial_sets-Includes problem b d small small_d dominates = elim (Bool-cases (problem.is_root b)) [
  | inl root ↦ let h = dominates (b ∷ []) (start b root) in rw (at-initial problem b small, root) h
  | inr other ↦ rw (at-initial problem b small, other) (range-has d problem.size small_d)
]

-- In a graph whose edges stay among its blocks, each of them reached from a root, the set that the
-- iteration leaves at a block has exactly the blocks that every walk from a root to it passes.
pub solve-Dominates :
    (problem : Problem) (sets : DomSets) (b d : ℕ)
    → Closed problem
    → AllReached problem
    → b < problem.size
    → d < problem.size
    → solve problem ≡ some sets
    → (has d (at sets b) ≡ true) ↔ Dominates problem d b
unfolding solve
solve-Dominates problem sets b d closed reached small small_d e =
    let fuel = suc (problem.size * problem.size) in
    let first = initial_sets problem (range problem.size) in
    let (rooted, solved) =
      iterate-keeps problem (Rooted problem) fuel first (Kept-Rooted problem)
        (initial_sets-Rooted problem) e in
    let (includes, again) =
      iterate-keeps problem (Includes problem) fuel first (Kept-Includes problem closed reached)
        (initial_sets-Includes problem) e in
    (
      λ h ps walk. Walk-Dominates problem sets d b ps closed solved rooted small h walk,
      λ dominates. includes b d small small_d dominates,
    )
