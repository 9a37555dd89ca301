-- ===== src/Dominance/Run.antt =====
-- `run` against the walks from the entry.
use fyra.Prelude.{
  ℕ, suc, ◌*◌, ◌<◌, ◌≡◌, refl, sym, ◌∙◌, ap, arith, inl, inr, ◌↔◌, true, false, Option, some, List,
  [], ◌∷◌, ◌==◌, ==_iff, Bool-cases, if◌then◌else◌,
}
use fyra.Prelude.Maps.{put}
use fyra.Dominance.Sets.{has, range}
use fyra.Dominance.Solve.{Graph, Problem, DomSets, at, initial_sets, solve}
use fyra.Dominance.Tree.{
  is_idom, first, strict, idom_of, dominators, DominatorTree, build, no_tree, add_child,
  get_immediate_dominator, run,
}
use fyra.Dominance.Members.{has-erase, range-has}
use fyra.Dominance.Walks.{Dominates, Closed, AllReached, start}
use fyra.Dominance.Passes.{iterate-keeps}
use fyra.Dominance.Correct.{solve-Dominates}
use fyra.Dominance.Fuel.{Shrinks, changed_sets-Shrinks, initial_sets-Shrinks}
use fyra.Dominance.Terminates.{solve-some}
use fyra.Dominance.Immediate.{
  Dominates-antisym, first-some, some-first, is_idom-has, has-is_idom, Walk-last,
}

-- A strict dominator that the block's other strict dominators dominate.
pub record ImmediatelyDominates (problem : Problem) (d b : ℕ) : Type 0 where
  pub other : (d == b) ≡ false
  pub dominates : Dominates problem d b
  pub closest :
      (e : ℕ) → e < problem.size → (e == b) ≡ false → Dominates problem e b → Dominates problem e d

pub solve-inside :
    (problem : Problem) (sets : DomSets) (b d : ℕ)
    → solve problem ≡ some sets
    → has d (at sets b) ≡ true
    → d < problem.size
unfolding solve
solve-inside problem sets b d e h =
    let (shrinks, solved) =
      iterate-keeps problem (Shrinks problem) (suc (problem.size * problem.size))
        (initial_sets problem (range problem.size))
        (λ s c small changes inv. changed_sets-Shrinks problem s c small changes inv)
        (initial_sets-Shrinks problem) e in
    shrinks.inside b d h

module _ (problem : Problem) (closed : Closed problem) (reached : AllReached problem)
    (sets : DomSets) (solved : solve problem ≡ some sets) where
  pub idom_of-ImmediatelyDominates :
      (b d : ℕ)
      → b < problem.size
      → idom_of problem sets b ≡ some d
      → ImmediatelyDominates problem d b
  unfolding idom_of
  idom_of-ImmediatelyDominates b d small h = elim (Bool-cases (problem.is_root b)) [
    | inl root ↦ let h' = rw root at h in absurd (cc)
    | inr inner ↦
        let h' : first (λ c. is_idom sets c (strict sets b)) (strict sets b) ≡ some d =
          rw inner at h in
        let (there, passes) =
          first-some (λ c. is_idom sets c (strict sets b)) d (strict sets b) h' in
        let (to, from) = has-erase d b (at sets b) in
        let (in_set, differ) = to there in
        let small_d = solve-inside problem sets b d solved in_set in
        record {
          other = differ;
          dominates =
              (solve-Dominates problem sets b d closed reached small small_d solved).0 in_set;
          closest = λ e small_e apart over. elim (Bool-cases (d == e)) [
            | inl same ↦
                let s : d ≡ e = ground (arith, ==_iff d e) in
                rw (s) (λ ps walk. Walk-last problem e ps walk)
            | inr unequal ↦
                let in_b =
                  (solve-Dominates problem sets b e closed reached small small_e solved).1 over in
                let in_d =
                  is_idom-has sets d e (strict sets b) passes
                    ((has-erase e b (at sets b)).1 (in_b, apart)) unequal in
                (solve-Dominates problem sets d e closed reached small_d small_e solved).0 in_d
          ];
        }
  ]

  pub ImmediatelyDominates-idom_of :
      (b d : ℕ)
      → b < problem.size
      → d < problem.size
      → ImmediatelyDominates problem d b
      → idom_of problem sets b ≡ some d
  unfolding idom_of
  ImmediatelyDominates-idom_of b d small small_d imm = elim (Bool-cases (problem.is_root b)) [
    | inl root ↦
        let h = imm.dominates (b ∷ []) (start b root) in
        let apart = imm.other in absurd (ground (arith, ==_iff b d, ==_iff d b))
    | inr inner ↦
        let in_b =
          (solve-Dominates problem sets b d closed reached small small_d solved).1 imm.dominates in
        let there = (has-erase d b (at sets b)).1 (in_b, imm.other) in
        rw inner (
          some-first (λ c. is_idom sets c (strict sets b)) d (strict sets b) there
            (has-is_idom sets d (strict sets b) (λ e k unequal.
              let (e_in_b, apart) = (has-erase e b (at sets b)).0 k in
              let small_e = solve-inside problem sets b e solved e_in_b in
              let over =
                (solve-Dominates problem sets b e closed reached small small_e solved).0 e_in_b in
              (solve-Dominates problem sets d e closed reached small_d small_e solved).1
                (imm.closest e small_e apart over)))
            (λ c k passes.
              let (c_in_b, apart) = (has-erase c b (at sets b)).0 k in
              let small_c = solve-inside problem sets b c solved c_in_b in
              let c_over_b =
                (solve-Dominates problem sets b c closed reached small small_c solved).0 c_in_b in
              elim (Bool-cases (c == d)) [
                | inl same ↦ ground (arith, ==_iff c d)
                | inr unequal ↦
                    let d_in_c = is_idom-has sets c d (strict sets b) passes there unequal in
                    let d_over_c =
                      (solve-Dominates problem sets c d closed reached small_c small_d solved).0
                        d_in_c in
                    let (ps, walk) = reached c small_c in
                    Dominates-antisym problem c d ps walk (imm.closest c small_c apart c_over_b)
                      d_over_c
              ]))
  ]

pub build-idom :
    (idom : ℕ → Option ℕ) (b : ℕ) (bs : List ℕ) (tree : DominatorTree)
    → get_immediate_dominator (build idom bs tree) b
      ≡ (if has b bs then idom b else get_immediate_dominator tree b)
unfolding build
build-idom idom b [] tree = refl
build-idom idom b (c ∷ bs) tree =
    let rest = build-idom idom b bs (record {
      idom_map = put c (idom c) tree.idom_map;
      children_map = add_child c (idom c) tree.children_map;
    }) in
    elim (Bool-cases (has b bs)) [
      | inl there ↦
          let r = rw there at rest in
          elim (Bool-cases (c == b)) [ inl e ↦ rw (e) r | inr e ↦ rw (e, there) r ]
      | inr absent ↦
          let r = rw absent at rest in
          elim (Bool-cases (c == b)) [
            | inl e ↦
                let s : c ≡ b = ground (arith, ==_iff c b) in
                let r' = rw e at r in rw (e) (r' ∙ ap idom s)
            | inr e ↦ let r' = rw e at r in rw (e, absent) r'
          ]
    ]

pub run-sets :
    (g : Graph) (tree : DominatorTree) (b : ℕ)
    → run g ≡ some tree
    → b < g.size
    → (sets : DomSets) × ((solve (dominators g) ≡ some sets)
        × (get_immediate_dominator tree b ≡ idom_of (dominators g) sets b))
unfolding run
run-sets g tree b e small =
    let (sets, solved) = solve-some (dominators g) in
    let e' : some (build (idom_of (dominators g) sets) (range g.size) no_tree) ≡ some tree =
      rw solved at e in
    let same : build (idom_of (dominators g) sets) (range g.size) no_tree ≡ tree = cc in
    let look = build-idom (idom_of (dominators g) sets) b (range g.size) no_tree in
    (sets, (solved, rw (← same) (rw (range-has b g.size small) at look)))

-- In a function whose blocks are all reached from the entry, the dominator tree gives a block the
-- immediate dominator that it has along the walks from the entry: the strict dominator that every
-- other strict dominator of the block dominates; and no other block.
pub run-ImmediatelyDominates :
    (g : Graph) (tree : DominatorTree) (b d : ℕ)
    → Closed (dominators g)
    → AllReached (dominators g)
    → run g ≡ some tree
    → b < g.size
    → d < g.size
    → (get_immediate_dominator tree b ≡ some d) ↔ ImmediatelyDominates (dominators g) d b
run-ImmediatelyDominates g tree b d closed reached e small small_d =
    let (sets, (solved, same)) = run-sets g tree b e small in
    (
      λ h.
          idom_of-ImmediatelyDominates (dominators g) closed reached sets solved b d small
            (sym same ∙ h),
      λ imm.
          same
          ∙ ImmediatelyDominates-idom_of (dominators g) closed reached sets solved b d small small_d
              imm,
    )
