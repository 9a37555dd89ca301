-- ===== src/Dominance/Solve.antt =====
-- The iteration that `run` and `runPostDominator` share: from the entry along predecessors, and from
-- the exits along successors. `none` means that the fuel ran out.
use fyra.Prelude.{
  ℕ, zero, suc, ◌*◌, Bool, true, false, ◌||◌, Option, none, some, List, [], ◌∷◌, if◌then◌else◌,
}
use fyra.Prelude.Maps.{PointerMap, find, put}
use fyra.Dominance.Sets.{intersect, insert, same_set, range}

-- The blocks of a function, from 0, the entry; the edges by the block that they enter or leave.
pub record Graph : Type 0 where
  pub size : ℕ
  pub predecessors : ℕ → List ℕ
  pub successors : ℕ → List ℕ

-- Which blocks start with themselves alone, and the edges that are met.
pub record Problem : Type 0 where
  pub size : ℕ
  pub is_root : ℕ → Bool
  pub sources : ℕ → List ℕ

abbrev pub DomSets : Type 0
DomSets = PointerMap (List ℕ)

abbrev pub or_empty : Option (List ℕ) → List ℕ
or_empty none = []
or_empty (some xs) = xs

-- `domSets[bb]`
abbrev pub at : DomSets → ℕ → List ℕ
at sets b = or_empty (find sets b)

abbrev pub initial_set : Problem → ℕ → List ℕ
initial_set problem b = if problem.is_root b then b ∷ [] else range problem.size

abbrev pub initial_sets : Problem → List ℕ → DomSets
initial_sets problem [] = []
initial_sets problem (b ∷ bs) = put b (initial_set problem b) (initial_sets problem bs)

abbrev pub intersect_all : DomSets → List ℕ → List ℕ → List ℕ
intersect_all sets acc [] = acc
intersect_all sets acc (p ∷ ps) = intersect_all sets (intersect acc (at sets p)) ps

abbrev pub meet : DomSets → List ℕ → List ℕ
meet sets [] = []
meet sets (p ∷ ps) = intersect_all sets (at sets p) ps

abbrev pub new_set : Problem → DomSets → ℕ → List ℕ
new_set problem sets b = insert b (meet sets (problem.sources b))

-- The sets, and `changed`.
pub record Progress : Type 0 where
  pub sets : DomSets
  pub changed : Bool

unfoldable pub visit : Problem → ℕ → Progress → Progress
visit problem b p =
    if problem.is_root b || same_set (new_set problem p.sets b) (at p.sets b)
    then p
    else record { sets = put b (new_set problem p.sets b) p.sets; changed = true }

unfoldable pub visit_all : Problem → List ℕ → Progress → Progress
unfolding visit
visit_all problem [] p = p
visit_all problem (b ∷ bs) p = visit_all problem bs (visit problem b p)

unfoldable pub one_pass : Problem → DomSets → Progress
unfolding visit_all
one_pass problem sets =
    visit_all problem (range problem.size) (record { sets = sets; changed = false })

unfoldable pub iterate : ℕ → Problem → DomSets → Option DomSets
unfolding one_pass
iterate zero problem sets = none
iterate (suc fuel) problem sets =
    let p = one_pass problem sets in
    let rest = iterate fuel problem p.sets in if p.changed then rest else some p.sets

-- Each pass that changes a set takes a block from one.
unfoldable pub solve : Problem → Option DomSets
unfolding iterate
solve problem =
    iterate (suc (problem.size * problem.size)) problem (initial_sets problem (range problem.size))
