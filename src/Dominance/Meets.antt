-- ===== src/Dominance/Meets.antt =====
-- Dominance frontiers, against the walks from the entry.
use fyra.Prelude.{
  ℕ, zero, suc, ◌<◌, ◌≡◌, refl, ◌∙◌, arith, ◌⊎◌, inl, inr, ◌↔◌, true, false, Option, none, some,
  List, [], ◌∷◌, ◌==◌, ==_iff, Bool-cases, length,
}
use fyra.Dominance.Sets.{has}
use fyra.Dominance.Solve.{Graph, Problem, DomSets, at}
use fyra.Dominance.Tree.{dominators, DominatorTree, get_immediate_dominator, run}
use fyra.Dominance.Walks.{Walk, start, step, Closed, AllReached}
use fyra.Dominance.Immediate.{Dominates-trans, Walk-last}
use fyra.Dominance.Run.{ImmediatelyDominates, run-sets, run-ImmediatelyDominates}
use fyra.Dominance.Query.{has_immediate}
use fyra.Dominance.Climb.{StrictlyDominates, shorter, idom_of-entry}
use fyra.Dominance.Frontier.{same_block, add_frontier, walk_up}
use fyra.Dominance.Runner.{Adds, Below, StopsAt, has-add_frontier, not_above, none-Below}

-- The immediate dominator of a block, or that it is the entry.
pub above-cases :
    (g : Graph) (tree : DominatorTree) (r : ℕ) (ps : List ℕ)
    → Closed (dominators g)
    → AllReached (dominators g)
    → run g ≡ some tree
    → r < g.size
    → Walk (dominators g) r ps
    → ((get_immediate_dominator tree r ≡ none) × ((r == 0) ≡ true))
      ⊎ ((d : ℕ) × ((get_immediate_dominator tree r ≡ some d)
            × ((d < g.size) × ImmediatelyDominates (dominators g) d r)))
above-cases g tree r ps closed reached e small walk =
    let (sets, (solved, same)) = run-sets g tree r e small in
    elim (Bool-cases (r == 0)) [
      | inl entry ↦ inl (same ∙ idom_of-entry g sets r entry, entry)
      | inr inner ↦
          let apart : (0 == r) ≡ false = ground (arith, ==_iff 0 r, ==_iff r 0) in
          let (d, (small_d, imm)) =
            has_immediate g closed reached sets solved r ps small apart walk in
          let up = (run-ImmediatelyDominates g tree r d closed reached e small small_d).1 imm in
          inr (d, (up, (small_d, imm)))
    ]

-- What a block adds, and what the walk adds above it.
Adds-join :
    (old next new : DomSets) (b r : ℕ) (P Q : ℕ → Type 0) (size : ℕ)
    → ((c x : ℕ)
        → (has c (at next x) ≡ true) ↔ ((has c (at old x) ≡ true) ⊎ (((b == c) ≡ true) × (r ≡ x))))
    → Adds next new b Q size
    → ((x : ℕ) → x < size → P x ↔ ((r ≡ x) ⊎ Q x))
    → Adds old new b P size
Adds-join old next new b r P Q size one more split c x small =
    let (one_to, one_from) = one c x in
    let (more_to, more_from) = more c x small in
    let (to, from) = split x small in
    (
      λ h. elim (more_to h) [
        | inr added ↦ inr (added.0, from (inr added.1))
        | inl h' ↦ elim (one_to h') [
          | inl old' ↦ inl old'
          | inr added ↦ inr (added.0, from (inl added.1))
        ]
      ],
      λ h. elim h [
        | inl old' ↦ more_from (inl (one_from (inl old')))
        | inr added ↦ elim (to added.1) [
          | inl here ↦ more_from (inl (one_from (inr (added.0, here))))
          | inr there ↦ more_from (inr (added.0, there))
        ]
      ],
    )

-- The blocks below are the runner, and those below its immediate dominator.
Below-up :
    (problem : Problem) (b r d x : ℕ)
    → x < problem.size
    → ImmediatelyDominates problem d r
    → ¬ (StrictlyDominates problem r b)
    → Below problem b r x ↔ ((r ≡ x) ⊎ Below problem b d x)
Below-up problem b r d x small imm not_strict = (
  λ (over, free). elim (Bool-cases (x == r)) [
    | inl e ↦ inl (ground (arith, ==_iff x r))
    | inr apart ↦ inr (imm.closest x small apart over, free)
  ],
  λ h. elim h [
    | inl same ↦ rw (← same) (λ ps walk. Walk-last problem r ps walk, not_strict)
    | inr below ↦ (Dominates-trans problem x d r below.0 imm.dominates, below.1)
  ],
)

Below-entry :
    (g : Graph) (b r x : ℕ)
    → (r == 0) ≡ true
    → ¬ (StrictlyDominates (dominators g) r b)
    → Below (dominators g) b r x ↔ ((r ≡ x) ⊎ ⊥)
Below-entry g b r x entry not_strict = (
  λ (over, free). let h = over (r ∷ []) (start r entry) in inl (ground (arith, ==_iff r x)),
  λ h. elim h [
    | inl same ↦ rw (← same) (λ ps walk. Walk-last (dominators g) r ps walk, not_strict)
    | inr nothing ↦ absurd nothing
  ],
)

Adds-none : (sets : DomSets) (b size : ℕ) → Adds sets sets b (λ x. ⊥) size
Adds-none sets b size c x small = (λ h. inl h, λ h. elim h [ inl h' ↦ h' | inr new ↦ absurd new.1 ])

StopsAt-up :
    (problem : Problem) (b r d : ℕ) (stop : Option ℕ)
    → StopsAt problem b r stop
    → same_block (some r) stop ≡ false
    → ImmediatelyDominates problem d r
    → StopsAt problem b d stop
StopsAt-up problem b r d none stops differ imm = stops
StopsAt-up problem b r d (some s) (small, (imm_b, over)) differ imm =
    (small, (imm_b, imm.closest s small (ground (arith, ==_iff r s, ==_iff s r)) over))

walk_up-none :
    (fuel : ℕ) (tree : DominatorTree) (b : ℕ) (frontiers : DomSets)
    → 0 < fuel
    → walk_up fuel tree b none frontiers ≡ some frontiers
unfolding walk_up
walk_up-none zero tree b frontiers h = absurd (omega (arith, h))
walk_up-none (suc fuel) tree b frontiers h = refl

length-Walk : (problem : Problem) (r : ℕ) (ps : List ℕ) → Walk problem r ps → 0 < length ps
length-Walk problem b ps (start r root) = omega arith
length-Walk problem b ps (step p b' ps' walk edge) = omega arith

pub walk_up-Walked :
    (g : Graph) (tree : DominatorTree) (fuel b r : ℕ) (bs ps : List ℕ) (stop : Option ℕ)
    (old : DomSets)
    → Closed (dominators g)
    → AllReached (dominators g)
    → run g ≡ some tree
    → get_immediate_dominator tree b ≡ stop
    → Walk (dominators g) b bs
    → r < g.size
    → Walk (dominators g) r ps
    → length ps < fuel
    → StopsAt (dominators g) b r stop
    → (new : DomSets) × ((walk_up fuel tree b (some r) old ≡ some new)
        × Adds old new b (Below (dominators g) b r) g.size)
unfolding walk_up
walk_up-Walked g tree zero b r bs ps stop old closed reached e idom walk_b small walk enough stops =
    absurd (omega (arith, enough))
walk_up-Walked g tree (suc fuel) b r bs ps stop old closed reached e idom walk_b small walk enough
      stops =
    let problem = dominators g in
    let next = add_frontier r b old in
    elim (Bool-cases (same_block (some r) stop)) [
      | inl here ↦ (
        old,
        (
          rw (idom, here) refl,
          λ c x small_x. (
            λ h. inl h,
            λ h. elim h [
              | inl h' ↦ h'
              | inr new ↦ absurd (none-Below problem b r x stop bs walk_b stops here new.1)
            ],
          ),
        ),
      )
      | inr differ ↦
          let not_strict = not_above problem b r stop ps walk small stops differ in
          elim (above-cases g tree r ps closed reached e small walk) [
            | inl (is_none, entry) ↦ (
              next,
              (
                rw (idom, differ, is_none)
                    (walk_up-none fuel tree b next
                      (omega (arith, enough, length-Walk problem r ps walk))),
                Adds-join old next next b r (Below problem b r) (λ x. ⊥) g.size
                    (λ c x. has-add_frontier old r b c x) (Adds-none next b g.size)
                    (λ x small_x. Below-entry g b r x entry not_strict),
              ),
            )
            | inr (d, (up, (small_d, imm))) ↦
                let (qs, (walk_d, short)) =
                  shorter problem r d ps walk imm.other (imm.dominates ps walk) in
                let (new, (returns, adds)) =
                  walk_up-Walked g tree fuel b d bs qs stop next closed reached e idom walk_b
                    small_d walk_d (omega (arith, short, enough))
                    (StopsAt-up problem b r d stop stops differ imm) in
                (
                  new,
                  (
                    rw (idom, differ, up) returns,
                    Adds-join old next new b r (Below problem b r) (Below problem b d) g.size
                        (λ c x. has-add_frontier old r b c x) adds
                        (λ x small_x. Below-up problem b r d x small_x imm not_strict),
                  ),
                )
          ]
    ]
