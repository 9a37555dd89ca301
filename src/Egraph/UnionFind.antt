-- ===== src/Egraph/UnionFind.antt =====
-- makeClass, find with path compression, and merge. `find` runs on fuel; `none` means that the fuel ran
-- out, or that `merge` would write outside the vector.
use fyra.Prelude.{
  ℕ, zero, suc, Option, none, some, List, [], ◌∷◌, ◌++◌, ◌==◌, ltb, length, get_elem?,
  if◌then◌else◌,
}

-- An assignment to an element; outside the vector it has no effect.
abbrev pub set : List ℕ → ℕ → ℕ → List ℕ
set [] i value = []
set (x ∷ xs) zero value = value ∷ xs
set (x ∷ xs) (suc i) value = x ∷ set xs i value

abbrev pub make_class : List ℕ → ℕ × List ℕ
make_class parent = (length parent, parent ++ (length parent ∷ []))

-- `parent[id] = root`, after the recursive call has returned the root.
abbrev pub compress : ℕ → Option (ℕ × List ℕ) → Option (ℕ × List ℕ)
compress id none = none
compress id (some (root, parent)) = some (root, set parent id root)

unfoldable pub find : ℕ → ℕ → List ℕ → Option (ℕ × List ℕ)
find zero id parent = none
find (suc fuel) id parent = elim (get_elem? parent id) [
  | none ↦ some (id, parent)
  | some p ↦ let up = find fuel p parent in if p == id then some (id, parent) else compress id up
]

-- Both roots are known.
abbrev pub attach : ℕ → ℕ → List ℕ → Option (ℕ × List ℕ)
attach r1 r2 parent =
    if r1 == r2
    then some (r1, parent)
    else if ltb r2 (length parent)
    then some (r1, set parent r2 r1)
    else none

abbrev pub attach_found : ℕ → Option (ℕ × List ℕ) → Option (ℕ × List ℕ)
attach_found r1 none = none
attach_found r1 (some (r2, parent)) = attach r1 r2 parent

unfoldable pub merge_found : ℕ → ℕ → Option (ℕ × List ℕ) → Option (ℕ × List ℕ)
unfolding find
merge_found fuel id2 none = none
merge_found fuel id2 (some (r1, parent)) = attach_found r1 (find fuel id2 parent)

unfoldable pub merge : ℕ → ℕ → ℕ → List ℕ → Option (ℕ × List ℕ)
unfolding find merge_found
merge fuel id1 id2 parent = merge_found fuel id2 (find fuel id1 parent)
