-- ===== src/Dominance/Entered.antt =====
-- The runners of all predecessors of a block.
use fyra.Prelude.{
  ℕ, ◌<◌, ◌≡◌, refl, arith, inl, inr, true, some, List, [], ◌∷◌, ◌==◌, ==_iff, Bool-cases, length,
}
use fyra.Dominance.Sets.{has}
use fyra.Dominance.Solve.{Graph, Problem, DomSets}
use fyra.Dominance.Tree.{dominators, DominatorTree, get_immediate_dominator, run}
use fyra.Dominance.Walks.{Walk, start, Closed, AllReached, Dominates-source}
use fyra.Dominance.Frontier.{over_predecessors}
use fyra.Dominance.Runner.{Adds, Below, StopsAt}
use fyra.Dominance.Meets.{above-cases, walk_up-Walked}

-- Each block is reached by a walk that the fuel covers.
abbrev pub ReachedWithin : ℕ → Problem → Type 0
ReachedWithin fuel problem =
    (b : ℕ) → b < problem.size → (ps : List ℕ) × (Walk problem b ps × (length ps < fuel))

-- `x` dominates a block of the list, and does not strictly dominate `b`.
abbrev pub DominatesOne : Problem → ℕ → List ℕ → ℕ → Type 0
DominatesOne problem b ps x = (p : ℕ) × ((has p ps ≡ true) × Below problem b p x)

pred-StopsAt :
    (g : Graph) (tree : DominatorTree) (b p : ℕ) (bs : List ℕ)
    → Closed (dominators g)
    → AllReached (dominators g)
    → run g ≡ some tree
    → b < g.size
    → Walk (dominators g) b bs
    → has p (g.predecessors b) ≡ true
    → StopsAt (dominators g) b p (get_immediate_dominator tree b)
pred-StopsAt g tree b p bs closed reached e small walk edge =
    elim (above-cases g tree b bs closed reached e small walk) [
      | inl (is_none, entry) ↦ rw is_none (λ x (apart, over).
          let h = over (b ∷ []) (start b entry) in absurd (ground (arith, ==_iff b x, ==_iff x b)))
      | inr (d, (up, (small_d, imm))) ↦
          let other = imm.other in
          rw up (
            small_d,
            (
              imm,
              Dominates-source (dominators g) d p b imm.dominates
                  (ground (arith, ==_iff b d, ==_iff d b)) edge,
            ),
          )
    ]

pub over_predecessors-Adds :
    (g : Graph) (tree : DominatorTree) (fuel b : ℕ) (ps : List ℕ) (old : DomSets)
    → Closed (dominators g)
    → ReachedWithin fuel (dominators g)
    → run g ≡ some tree
    → b < g.size
    → ((p : ℕ) → has p ps ≡ true → has p (g.predecessors b) ≡ true)
    → (new : DomSets) × ((over_predecessors fuel tree b ps old ≡ some new)
        × Adds old new b (DominatesOne (dominators g) b ps) g.size)
unfolding over_predecessors
over_predecessors-Adds g tree fuel b [] old closed within e small edges = (
  old,
  (
    refl,
    λ c x small_x.
        (λ h. inl h, λ h. elim h [ inl h' ↦ h' | inr (same, (p, (there, below))) ↦ absurd (cc) ]),
  ),
)
over_predecessors-Adds g tree fuel b (p ∷ ps) old closed within e small edges =
    let reached : AllReached (dominators g) = λ c s. (let (qs, (w, l)) = within c s in (qs, w)) in
    let edge = edges p (ground (arith, ==_iff p p)) in
    let small_p = closed p b small edge in
    let (bs, (walk_b, short_b)) = within b small in
    let (qs, (walk_p, short_p)) = within p small_p in
    let (next, (walked, adds)) =
      walk_up-Walked g tree fuel b p bs qs (get_immediate_dominator tree b) old closed reached e
        refl walk_b small_p walk_p short_p
        (pred-StopsAt g tree b p bs closed reached e small walk_b edge) in
    let (new, (returns, more)) =
      over_predecessors-Adds g tree fuel b ps next closed within e small
        (λ q h. edges q (ground arith)) in
    (
      new,
      (
        rw walked returns,
        λ c x small_x.
            let (to, from) = adds c x small_x in
            let (more_to, more_from) = more c x small_x in
            (
              λ h. elim (more_to h) [
                | inr (same, (q, (there, below))) ↦ inr (same, (q, (ground arith, below)))
                | inl h' ↦ elim (to h') [
                  | inl old' ↦ inl old'
                  | inr (same, below) ↦ inr (same, (p, (ground (arith, ==_iff p p), below)))
                ]
              ],
              λ h. elim h [
                | inl old' ↦ more_from (inl (from (inl old')))
                | inr (same, (q, (there, below))) ↦ elim (Bool-cases (p == q)) [
                  | inl equal ↦
                      let s : p ≡ q = ground (arith, ==_iff p q) in
                      let below' : Below (dominators g) b p x = rw s below in
                      more_from (inl (from (inr (same, below'))))
                  | inr apart ↦ more_from (inr (same, (q, (ground arith, below))))
                ]
              ],
            ),
      ),
    )
