-- ===== src/Tests/Classes.antt =====
-- Two classes of an e-graph: 2 leads to 1 and on to 0, and 4 leads to 3.
use fyra.Prelude.{ℕ, ◌≡◌, refl, arith, inr, some, List, [], ◌∷◌, length}
use fyra.Egraph.UnionFind.{find, merge}
use fyra.Egraph.Roots.{Leads, arrived, step, Keeps, find-Keeps}
use fyra.Egraph.Merge.{Joined, merge-Joined}

abbrev classes : List ℕ
classes = 0 ∷ 0 ∷ 1 ∷ 3 ∷ 3 ∷ []

two-Leads : Leads classes 2 2 0
two-Leads = step refl refl (step refl refl (arrived (inr refl)))

four-Leads : Leads classes 1 4 3
four-Leads = step refl refl (arrived (inr refl))

find-Keeps_example :
    (parent' : List ℕ) × (find 3 2 classes ≡ some (0, parent'))
    × Keeps classes parent'
    × (length parent' ≡ length classes)
find-Keeps_example = find-Keeps 3 classes two-Leads (omega arith)

merge-Joined_example :
    (parent' : List ℕ) × (merge 3 2 4 classes ≡ some (0, parent')) × Joined classes parent' 0 3
merge-Joined_example =
    merge-Joined 3 classes two-Leads four-Leads (omega arith) (omega arith) (omega arith)

merged_classes : merge 3 2 4 classes ≡ some (0, 0 ∷ 0 ∷ 0 ∷ 0 ∷ 3 ∷ [])
unfolding merge
merged_classes = refl
