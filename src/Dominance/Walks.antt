-- ===== src/Dominance/Walks.antt =====
-- The sets against the walks of the graph: what holds once a pass has changed nothing, and what holds
-- from the first set to the last.
use fyra.Prelude.{
  ℕ, ◌<◌, ◌≡◌, arith, inl, inr, true, false, List, [], ◌∷◌, ◌==◌, ==_iff, Bool-cases,
}
use fyra.Dominance.Sets.{has, same_set, insert}
use fyra.Dominance.Solve.{Problem, DomSets, at, meet, new_set}
use fyra.Dominance.Members.{has-insert, subset-has, has-meet, meet-has}

-- A walk from a root to a block along the edges; the blocks that it passes, the last one first.
pub data Walk (problem : Problem) : ℕ → List ℕ → Type 0 where
  start : (r : ℕ) → problem.is_root r ≡ true → Walk problem r (r ∷ [])
  step :
      (p b : ℕ) (ps : List ℕ)
      → Walk problem p ps
      → has p (problem.sources b) ≡ true
      → Walk problem b (b ∷ ps)

-- Every walk to the block passes `d`.
abbrev pub Dominates : Problem → ℕ → ℕ → Type 0
Dominates problem d b = (ps : List ℕ) → Walk problem b ps → has d ps ≡ true

-- A visit of any block leaves the sets as they are.
abbrev pub Solved : Problem → DomSets → Type 0
Solved problem sets =
    (b : ℕ)
    → b < problem.size
    → problem.is_root b ≡ false
    → same_set (new_set problem sets b) (at sets b) ≡ true

-- A root has itself alone.
abbrev pub Rooted : Problem → DomSets → Type 0
Rooted problem sets = (r d : ℕ) → problem.is_root r ≡ true → has d (at sets r) ≡ true → r ≡ d

-- The blocks that dominate a block have not been taken from its set.
abbrev pub Includes : Problem → DomSets → Type 0
Includes problem sets =
    (b d : ℕ)
    → b < problem.size
    → d < problem.size
    → Dominates problem d b
    → has d (at sets b) ≡ true

-- The edges stay in the function.
abbrev pub Closed : Problem → Type 0
Closed problem = (p b : ℕ) → b < problem.size → has p (problem.sources b) ≡ true → p < problem.size

-- Every block is reached.
abbrev pub AllReached : Problem → Type 0
AllReached problem = (b : ℕ) → b < problem.size → (ps : List ℕ) × Walk problem b ps

pub Walk-Dominates :
    (problem : Problem) (sets : DomSets) (d b : ℕ) (ps : List ℕ)
    → Closed problem
    → Solved problem sets
    → Rooted problem sets
    → b < problem.size
    → has d (at sets b) ≡ true
    → Walk problem b ps
    → has d ps ≡ true
Walk-Dominates problem sets d b ps closed solved rooted small h (start r root) =
    let same = rooted r d root h in ground (arith, ==_iff r d)
Walk-Dominates problem sets d b ps closed solved rooted small h (step p b' ps' walk edge) =
    elim (Bool-cases (problem.is_root b)) [
      | inl root ↦ let same = rooted b d root h in ground (arith, ==_iff b d)
      | inr other ↦
          let m = meet sets (problem.sources b) in
          let old : has d (insert b m) ≡ true =
            subset-has d (at sets b) (insert b m) (ground (arith, solved b small other)) h in
          elim (Bool-cases (b == d)) [
            | inl same ↦ ground arith
            | inr differ ↦
                let met : has d m ≡ true = ground (arith, has-insert d b m) in
                let rest =
                  Walk-Dominates problem sets d p ps' closed solved rooted (closed p b small edge)
                    (has-meet sets d p (problem.sources b) met edge) walk in
                ground arith
          ]
    ]

-- What dominates a block dominates the blocks it is entered from.
pub Dominates-source :
    (problem : Problem) (d p b : ℕ)
    → Dominates problem d b
    → (b == d) ≡ false
    → has p (problem.sources b) ≡ true
    → Dominates problem d p
Dominates-source problem d p b dominates differ edge ps walk =
    let f = dominates (b ∷ ps) (step p b ps walk edge) in ground arith

some_source :
    (problem : Problem) (b : ℕ) (ps : List ℕ)
    → problem.is_root b ≡ false
    → Walk problem b ps
    → (p : ℕ) × (has p (problem.sources b) ≡ true)
some_source problem b ps other (start r root) = absurd (cc)
some_source problem b ps other (step p b' ps' walk edge) = (p, edge)

pub new_set-Includes :
    (problem : Problem) (sets : DomSets) (b d : ℕ)
    → Closed problem
    → AllReached problem
    → Includes problem sets
    → b < problem.size
    → d < problem.size
    → problem.is_root b ≡ false
    → Dominates problem d b
    → has d (new_set problem sets b) ≡ true
new_set-Includes problem sets b d closed reached includes small small_d other dominates =
    let m = meet sets (problem.sources b) in
    elim (Bool-cases (b == d)) [
      | inl same ↦ ground (arith, has-insert d b m)
      | inr differ ↦
          let (ps, walk) = reached b small in
          let (p, edge) = some_source problem b ps other walk in
          let met : has d m ≡ true = meet-has sets d p (problem.sources b) edge (λ q e.
            includes q d (closed q b small e) small_d
              (Dominates-source problem d q b dominates differ e)) in
          ground (arith, has-insert d b m)
    ]
