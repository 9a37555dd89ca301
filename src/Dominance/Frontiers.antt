-- ===== src/Dominance/Frontiers.antt =====
-- `DominanceFrontier::run` as a whole.
use fyra.Prelude.{
  ℕ, ◌<◌, ◌≤◌, ◌≡◌, refl, arith, ◌⊎◌, inl, inr, ◌↔◌, true, some, List, [], ◌∷◌, ◌==◌, ==_iff, leb,
  leb→le, Bool-cases, length, if◌then◌else◌,
}
use fyra.Dominance.Sets.{has, range}
use fyra.Dominance.Solve.{Graph, DomSets, at}
use fyra.Dominance.Tree.{dominators, DominatorTree, run}
use fyra.Dominance.Members.{has-range, range-has}
use fyra.Dominance.Walks.{Closed}
use fyra.Dominance.Frontier.{over_predecessors, over_blocks, run_frontier, get_frontier}
use fyra.Dominance.Runner.{Adds}
use fyra.Dominance.Entered.{ReachedWithin, DominatesOne, over_predecessors-Adds}

-- A block with two predecessors or more, where `x` dominates one of them and not strictly the block.
abbrev pub Meets : Graph → ℕ → ℕ → Type 0
Meets g x c = (2 ≤ length (g.predecessors c)) × DominatesOne (dominators g) c (g.predecessors c) x

visit_block :
    (g : Graph) (tree : DominatorTree) (fuel b : ℕ) (old : DomSets)
    → Closed (dominators g)
    → ReachedWithin fuel (dominators g)
    → run g ≡ some tree
    → b < g.size
    → (new : DomSets) × (((if leb 2 (length (g.predecessors b))
            then over_predecessors fuel tree b (g.predecessors b) old
            else some old)
          ≡ some new)
        × Adds old new b (λ x. Meets g x b) g.size)
visit_block g tree fuel b old closed within e small =
    elim (Bool-cases (leb 2 (length (g.predecessors b)))) [
      | inr few ↦ (
        old,
        (
          rw few refl,
          λ c x small_x. (
            λ h. inl h,
            λ h. elim h [ inl h' ↦ h' | inr (same, (two, one)) ↦ absurd (ground arith) ],
          ),
        ),
      )
      | inl many ↦
          let two = leb→le 2 (length (g.predecessors b)) many in
          let (new, (returns, adds)) =
            over_predecessors-Adds g tree fuel b (g.predecessors b) old closed within e small
              (λ p h. h) in
          (
            new,
            (
              rw many returns,
              λ c x small_x.
                  let (to, from) = adds c x small_x in
                  (
                    λ h. elim (to h) [ inl h' ↦ inl h' | inr (same, one) ↦ inr (same, (two, one)) ],
                    λ h. elim h [
                      | inl h' ↦ from (inl h')
                      | inr (same, (m, one)) ↦ from (inr (same, one))
                    ],
                  ),
            ),
          )
    ]

over_blocks-Meets :
    (g : Graph) (tree : DominatorTree) (fuel : ℕ) (bs : List ℕ) (old : DomSets)
    → Closed (dominators g)
    → ReachedWithin fuel (dominators g)
    → run g ≡ some tree
    → ((b : ℕ) → has b bs ≡ true → b < g.size)
    → (new : DomSets) × ((over_blocks fuel g tree bs old ≡ some new)
        × ((c x : ℕ)
            → x < g.size
            → (has c (at new x) ≡ true)
              ↔ ((has c (at old x) ≡ true) ⊎ ((has c bs ≡ true) × Meets g x c))))
unfolding over_blocks
over_blocks-Meets g tree fuel [] old closed within e small = (
  old,
  (refl, λ c x small_x. (λ h. inl h, λ h. elim h [ inl h' ↦ h' | inr (there, m) ↦ absurd (cc) ])),
)
over_blocks-Meets g tree fuel (b ∷ bs) old closed within e small =
    let later : (c : ℕ) → has c bs ≡ true → c < g.size = λ c h. small c (ground arith) in
    let (next, (visited, adds)) =
      visit_block g tree fuel b old closed within e (small b (ground (arith, ==_iff b b))) in
    let (new, (returns, more)) = over_blocks-Meets g tree fuel bs next closed within e later in
    (
      new,
      (
        rw visited returns,
        λ c x small_x.
            let (to, from) = adds c x small_x in
            let (more_to, more_from) = more c x small_x in
            (
              λ h. elim (more_to h) [
                | inr (there, m) ↦ inr (ground arith, m)
                | inl h' ↦ elim (to h') [
                  | inl old' ↦ inl old'
                  | inr (same, m) ↦
                      let s : b ≡ c = ground (arith, ==_iff b c) in inr (ground arith, rw (← s) m)
                ]
              ],
              λ h. elim h [
                | inl old' ↦ more_from (inl (from (inl old')))
                | inr (there, m) ↦ elim (Bool-cases (b == c)) [
                  | inl same ↦
                      let s : b ≡ c = ground (arith, ==_iff b c) in
                      let m' : Meets g x b = rw s m in more_from (inl (from (inr (same, m'))))
                  | inr apart ↦ more_from (inr (ground arith, m))
                ]
              ],
            ),
      ),
    )

-- In a function whose blocks are all reached from the entry, by walks that the fuel covers, the
-- computation of dominance frontiers ends, and a block is in the frontier of another exactly where it
-- has two predecessors or more, and the other dominates one of them but not strictly the block.
pub run_frontier-Meets :
    (g : Graph) (tree : DominatorTree) (fuel : ℕ)
    → Closed (dominators g)
    → ReachedWithin fuel (dominators g)
    → run g ≡ some tree
    → (frontiers : DomSets) × ((run_frontier fuel g tree ≡ some frontiers)
        × ((c x : ℕ)
            → c < g.size
            → x < g.size
            → (has c (get_frontier frontiers x) ≡ true) ↔ Meets g x c))
unfolding run_frontier
run_frontier-Meets g tree fuel closed within e =
    let (frontiers, (returns, f)) =
      over_blocks-Meets g tree fuel (range g.size) [] closed within e
        (λ b h. has-range b g.size h) in
    (
      frontiers,
      (
        returns,
        λ c x small small_x.
            let (to, from) = f c x small_x in
            (
              λ h. elim (to h) [ inl nothing ↦ absurd (cc) | inr (there, m) ↦ m ],
              λ m. from (inr (range-has c g.size small, m)),
            ),
      ),
    )
