-- ===== src/Dominance/Post.antt =====
-- `runPostDominator` against the iteration's sets.
use fyra.Prelude.{
  ℕ, ◌<◌, ◌≡◌, refl, sym, ◌∙◌, arith, inl, inr, true, false, some, List, [], ◌∷◌, ◌==◌, ==_iff,
  Bool-cases,
}
use fyra.Dominance.Sets.{has, range}
use fyra.Dominance.Solve.{Graph, Problem, DomSets, at, solve}
use fyra.Dominance.Tree.{
  is_empty, is_ipdom, first, strict, ipdom_of, post_dominators, DominatorTree, build, no_tree,
  no_exits, get_immediate_dominator, run_post_dominator,
}
use fyra.Dominance.Members.{has-erase, range-has}
use fyra.Dominance.Walks.{Walk, start, step, Dominates, Closed, AllReached}
use fyra.Dominance.Correct.{solve-Dominates}
use fyra.Dominance.Terminates.{solve-some}
use fyra.Dominance.Immediate.{first-some}
use fyra.Dominance.Run.{solve-inside, build-idom}

is_ipdom-has :
    (sets : DomSets) (d e : ℕ) (ds : List ℕ)
    → is_ipdom sets d ds ≡ true
    → has e ds ≡ true
    → (d == e) ≡ false
    → has e (at sets d) ≡ false
is_ipdom-has sets d e [] h k differ = absurd (cc)
is_ipdom-has sets d e (c ∷ ds) h k differ = elim (Bool-cases (c == e)) [
  | inl same ↦
      let s : c ≡ e = ground (arith, ==_iff c e) in
      rw (← s) (ground (arith, ==_iff d c, ==_iff d e, s))
  | inr apart ↦ is_ipdom-has sets d e ds (ground arith) (ground arith) differ
]

-- A strict dominator that none of the block's other strict dominators dominates.
pub record FarthestDominates (problem : Problem) (d b : ℕ) : Type 0 where
  pub other : (d == b) ≡ false
  pub dominates : Dominates problem d b
  pub farthest :
      (e : ℕ)
      → e < problem.size
      → (e == b) ≡ false
      → (d == e) ≡ false
      → Dominates problem e b
      → ¬ (Dominates problem e d)

ipdom_of-FarthestDominates :
    (g : Graph) (sets : DomSets) (b d : ℕ)
    → Closed (post_dominators g)
    → AllReached (post_dominators g)
    → solve (post_dominators g) ≡ some sets
    → b < g.size
    → ipdom_of (post_dominators g) sets b ≡ some d
    → FarthestDominates (post_dominators g) d b
unfolding ipdom_of
ipdom_of-FarthestDominates g sets b d closed reached solved small h =
    let problem = post_dominators g in
    elim (Bool-cases (problem.is_root b)) [
      | inl root ↦ let h' = rw root at h in absurd (cc)
      | inr inner ↦
          let h' : first (λ c. is_ipdom sets c (strict sets b)) (strict sets b) ≡ some d =
            rw inner at h in
          let (there, passes) =
            first-some (λ c. is_ipdom sets c (strict sets b)) d (strict sets b) h' in
          let (in_b, differ) = (has-erase d b (at sets b)).0 there in
          let small_d = solve-inside problem sets b d solved in_b in
          record {
            other = differ;
            dominates =
                (solve-Dominates problem sets b d closed reached small small_d solved).0 in_b;
            farthest = λ e small_e apart unequal over e_over_d.
                let e_in_b =
                  (solve-Dominates problem sets b e closed reached small small_e solved).1 over in
                let missing =
                  is_ipdom-has sets d e (strict sets b) passes
                    ((has-erase e b (at sets b)).1 (e_in_b, apart)) unequal in
                let e_in_d =
                  (solve-Dominates problem sets d e closed reached small_d small_e solved).1
                    e_over_d in
                absurd (cc);
          }
    ]

-- A walk starts at a root of the function.
Walk-root :
    (problem : Problem) (b : ℕ) (ps : List ℕ)
    → Closed problem
    → b < problem.size
    → Walk problem b ps
    → (r : ℕ) × ((r < problem.size) × (problem.is_root r ≡ true))
Walk-root problem b ps closed small (start r root) = (r, (small, root))
Walk-root problem b ps closed small (step p b' ps' walk edge) =
    Walk-root problem p ps' closed (closed p b small edge) walk

has_exits :
    (g : Graph) (r : ℕ) (bs : List ℕ)
    → is_empty (g.successors r) ≡ true
    → has r bs ≡ true
    → no_exits g bs ≡ false
has_exits g r [] exit h = absurd (cc)
has_exits g r (b ∷ bs) exit h = elim (Bool-cases (b == r)) [
  | inl same ↦ let s : b ≡ r = ground (arith, ==_iff b r) in rw (s, exit) refl
  | inr apart ↦ let rest = has_exits g r bs exit (ground arith) in ground arith
]

run_post_dominator-sets :
    (g : Graph) (old tree : DominatorTree) (b : ℕ)
    → Closed (post_dominators g)
    → AllReached (post_dominators g)
    → run_post_dominator g old ≡ some tree
    → b < g.size
    → (sets : DomSets) × ((solve (post_dominators g) ≡ some sets)
        × (get_immediate_dominator tree b ≡ ipdom_of (post_dominators g) sets b))
unfolding run_post_dominator
run_post_dominator-sets g old tree b closed reached e small =
    let problem = post_dominators g in
    let (ps, walk) = reached b small in
    let (r, (small_r, root)) = Walk-root problem b ps closed small walk in
    let exits = has_exits g r (range g.size) root (range-has r g.size small_r) in
    let (sets, solved) = solve-some problem in
    let e' : some (build (ipdom_of problem sets) (range g.size) no_tree) ≡ some tree =
      rw (exits, solved) at e in
    let same : build (ipdom_of problem sets) (range g.size) no_tree ≡ tree = cc in
    let look = build-idom (ipdom_of problem sets) b (range g.size) no_tree in
    (sets, (solved, rw (← same) (rw (range-has b g.size small) at look)))

-- Where the edges stay in the function and every block reaches an exit: the block that
-- `runPostDominator` records as the immediate post-dominator of a block is a strict post-dominator of
-- it, and of the block's other strict post-dominators none post-dominates it; so it is the farthest,
-- and not the immediate one, when there are two.
pub run_post_dominator-FarthestDominates :
    (g : Graph) (old tree : DominatorTree) (b d : ℕ)
    → Closed (post_dominators g)
    → AllReached (post_dominators g)
    → run_post_dominator g old ≡ some tree
    → b < g.size
    → get_immediate_dominator tree b ≡ some d
    → FarthestDominates (post_dominators g) d b
run_post_dominator-FarthestDominates g old tree b d closed reached e small h =
    let (sets, (solved, same)) = run_post_dominator-sets g old tree b closed reached e small in
    ipdom_of-FarthestDominates g sets b d closed reached solved small (sym same ∙ h)
