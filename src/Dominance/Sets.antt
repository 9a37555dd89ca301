-- ===== src/Dominance/Sets.antt =====
-- `std::set` of blocks, as a list without order. Blocks are named by their position in the function.
use fyra.Prelude.{
  ℕ, zero, suc, Bool, true, false, ◌&&◌, ◌||◌, List, [], ◌∷◌, ◌++◌, ◌==◌, if◌then◌else◌,
}

abbrev pub has : ℕ → List ℕ → Bool
has d [] = false
has d (x ∷ xs) = x == d || has d xs

-- `set_intersection`
abbrev pub intersect : List ℕ → List ℕ → List ℕ
intersect [] ys = []
intersect (x ∷ xs) ys = let rest = intersect xs ys in if has x ys then x ∷ rest else rest

abbrev pub insert : ℕ → List ℕ → List ℕ
insert d xs = if has d xs then xs else d ∷ xs

abbrev pub erase : ℕ → List ℕ → List ℕ
erase d [] = []
erase d (x ∷ xs) = let rest = erase d xs in if x == d then rest else x ∷ rest

abbrev pub subset : List ℕ → List ℕ → Bool
subset [] ys = true
subset (x ∷ xs) ys = has x ys && subset xs ys

-- `!=` is the negation.
abbrev pub same_set : List ℕ → List ℕ → Bool
same_set xs ys = subset xs ys && subset ys xs

-- 0, ..., n - 1
abbrev pub range : ℕ → List ℕ
range zero = []
range (suc n) = range n ++ (n ∷ [])
