-- ===== src/Dominance/Climb.antt =====
-- The climb up the tree, from a block to the entry.
use fyra.Prelude.{
  ℕ, zero, suc, ◌+◌, ◌<◌, ◌≤◌, ◌≡◌, refl, ◌∙◌, arith, inl, inr, ◌↔◌, Bool, true, false, Option,
  none, some, List, [], ◌∷◌, ◌==◌, ==_iff, Bool-cases, length,
}
use fyra.Dominance.Sets.{has}
use fyra.Dominance.Solve.{Graph, Problem, DomSets}
use fyra.Dominance.Tree.{
  idom_of, dominators, DominatorTree, get_immediate_dominator, run, climb, dominates,
}
use fyra.Dominance.Walks.{Walk, start, step, Dominates, Closed, AllReached}
use fyra.Dominance.Immediate.{stop, Dominates-trans, Dominates-antisym, Walk-last}
use fyra.Dominance.Run.{ImmediatelyDominates, run-sets, run-ImmediatelyDominates}
use fyra.Dominance.Query.{has_immediate}

-- A shorter walk to a strict dominator.
pub shorter :
    (problem : Problem) (b d : ℕ) (ps : List ℕ)
    → Walk problem b ps
    → (d == b) ≡ false
    → has d ps ≡ true
    → (qs : List ℕ) × (Walk problem d qs × (length qs + 1 ≤ length ps))
shorter problem b d ps (start r root) differ h = absurd (ground (arith, ==_iff r d, ==_iff d r))
shorter problem b d ps (step p b' ps' walk edge) differ h =
    let stopped = stop problem p d ps' walk (ground (arith, ==_iff b d, ==_iff d b)) in
    (stopped.blocks, (stopped.walk, omega (arith, stopped.short)))

abbrev pub StrictlyDominates : Problem → ℕ → ℕ → Type 0
StrictlyDominates problem a b = ((a == b) ≡ false) × Dominates problem a b

-- The answer of a query about a relation.
abbrev pub Decides : Option Bool → Type 0 → Type 0
Decides answer P = (x : Bool) × ((answer ≡ some x) × ((x ≡ true) ↔ P))

-- The dominators of a block that is not the entry: its immediate one, and the dominators of that.
above :
    (problem : Problem) (a b d : ℕ) (ps : List ℕ)
    → Walk problem b ps
    → a < problem.size
    → ImmediatelyDominates problem d b
    → (d == a) ≡ false
    → StrictlyDominates problem a d ↔ StrictlyDominates problem a b
above problem a b d ps walk small imm differ = (
  λ (apart, over).
      let over_b = Dominates-trans problem a d b over imm.dominates in
      (
        elim (Bool-cases (a == b)) [
          | inr e ↦ e
          | inl e ↦
              let same : a ≡ b = ground (arith, ==_iff a b) in
              let back : Dominates problem b d = rw (← same) over in
              let equal = Dominates-antisym problem b d ps walk back imm.dominates in
              let other = imm.other in absurd (ground (arith, ==_iff d b, equal))
        ],
        over_b,
      ),
  λ (apart, over). (ground (arith, ==_iff a d, ==_iff d a), imm.closest a small apart over),
)

pub no_empty : (problem : Problem) (b : ℕ) (ps : List ℕ) → Walk problem b ps → length ps ≤ 0 → ⊥
no_empty problem b ps (start r root) h = omega (arith, h)
no_empty problem b ps (step p b' ps' walk edge) h = omega (arith, h)

pub idom_of-entry :
    (g : Graph) (sets : DomSets) (b : ℕ) → (b == 0) ≡ true → idom_of (dominators g) sets b ≡ none
unfolding idom_of
idom_of-entry g sets b root = rw root refl

climb-Decides :
    (g : Graph) (tree : DominatorTree) (fuel a b : ℕ) (ps : List ℕ)
    → Closed (dominators g)
    → AllReached (dominators g)
    → run g ≡ some tree
    → a < g.size
    → b < g.size
    → Walk (dominators g) b ps
    → length ps ≤ fuel
    → Decides (climb fuel tree a b) (StrictlyDominates (dominators g) a b)
unfolding climb
climb-Decides g tree zero a b ps closed reached e small_a small walk enough =
    absurd (no_empty (dominators g) b ps walk enough)
climb-Decides g tree (suc fuel) a b ps closed reached e small_a small walk enough =
    let problem = dominators g in
    let (sets, (solved, same)) = run-sets g tree b e small in
    elim (Bool-cases (0 == b)) [
      | inl entry ↦
          let s : 0 ≡ b = ground (arith, ==_iff 0 b) in
          let root : (b == 0) ≡ true = ground (arith, ==_iff b 0, ==_iff 0 b) in
          let is_none : get_immediate_dominator tree b ≡ none =
            same ∙ idom_of-entry g sets b root in
          (
            false,
            (
              rw is_none refl,
              (
                λ h. absurd (cc),
                λ (apart, over).
                    let h = over (b ∷ []) (start b root) in
                    absurd (ground (arith, ==_iff a b, ==_iff b a)),
              ),
            ),
          )
      | inr inner ↦
          let (d, (small_d, imm)) =
            has_immediate g closed reached sets solved b ps small inner walk in
          let up = (run-ImmediatelyDominates g tree b d closed reached e small small_d).1 imm in
          elim (Bool-cases (d == a)) [
            | inl here ↦
                let s : d ≡ a = ground (arith, ==_iff d a) in
                let found : ImmediatelyDominates problem a b = rw (← s) imm in
                (true, (rw (up, here) refl, (λ h. (found.other, found.dominates), λ h. refl)))
            | inr differ ↦
                let (qs, (walk_d, short)) =
                  shorter problem b d ps walk imm.other (imm.dominates ps walk) in
                let (x, (answer, (to, from))) =
                  climb-Decides g tree fuel a d qs closed reached e small_a small_d walk_d
                    (omega (arith, short, enough)) in
                let (down, lift) = above problem a b d ps walk small_a imm differ in
                (x, (rw (up, differ) answer, (λ h. down (to h), λ h. from (lift h))))
          ]
    ]

-- In a function whose blocks are all reached from the entry, the query `dominates` ends, on fuel for
-- the length of some walk to the block, and answers whether every walk from the entry passes the
-- other block.
pub dominates-Decides :
    (g : Graph) (tree : DominatorTree) (fuel a b : ℕ) (ps : List ℕ)
    → Closed (dominators g)
    → AllReached (dominators g)
    → run g ≡ some tree
    → a < g.size
    → b < g.size
    → Walk (dominators g) b ps
    → length ps ≤ fuel
    → Decides (dominates fuel tree a b) (Dominates (dominators g) a b)
unfolding dominates
dominates-Decides g tree fuel a b ps closed reached e small_a small walk enough =
    elim (Bool-cases (a == b)) [
      | inl same ↦
          let s : a ≡ b = ground (arith, ==_iff a b) in
          (true, (rw same refl, (λ h. rw s (λ qs w. Walk-last (dominators g) b qs w), λ h. refl)))
      | inr differ ↦
          let (x, (answer, (to, from))) =
            climb-Decides g tree fuel a b ps closed reached e small_a small walk enough in
          (x, (rw differ answer, (λ h. (to h).1, λ over. from (differ, over))))
    ]
