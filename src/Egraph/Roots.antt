-- ===== src/Egraph/Roots.antt =====
-- The root that an identifier leads to, and what `find` and `merge` do to it.
use fyra.Prelude.{
  ℕ, zero, suc, ◌≤◌, ◌<◌, ◌≡◌, refl, sym, ◌∙◌, arith, ◌⊎◌, inl, inr, true, false, none, some, List,
  [], ◌∷◌, ◌==◌, ==_iff, ltb, length, get_elem?, Bool-cases, if◌then◌else◌,
}
use native.Mathlib.Nat.{le_refl, le_trans}
use fyra.Egraph.UnionFind.{set, find}

-- The identifier is its own parent, or no element.
abbrev pub IsRoot : List ℕ → ℕ → Type 0
IsRoot parent id = (get_elem? parent id ≡ none) ⊎ (get_elem? parent id ≡ some id)

-- `id` reaches the root `root` in `steps` steps.
pub data Leads (parent : List ℕ) : ℕ → ℕ → ℕ → Type 0 where
  arrived : {root : ℕ} → IsRoot parent root → Leads parent zero root root
  step :
      {steps id next root : ℕ}
      → get_elem? parent id ≡ some next
      → (next == id) ≡ false
      → Leads parent steps next root
      → Leads parent (suc steps) id root

pub get_elem?-set :
    (xs : List ℕ) (i j value : ℕ)
    → get_elem? (set xs i value) j
      ≡ (if i == j then (if ltb i (length xs) then some value else none) else get_elem? xs j)
get_elem?-set [] i j value = ground arith
get_elem?-set (x ∷ xs) zero zero value = ground arith
get_elem?-set (x ∷ xs) zero (suc j) value = ground arith
get_elem?-set (x ∷ xs) (suc i) zero value = ground arith
get_elem?-set (x ∷ xs) (suc i) (suc j) value = ground (arith, get_elem?-set xs i j value)

get_elem?_within :
    (xs : List ℕ) (i : ℕ) {x : ℕ} → get_elem? xs i ≡ some x → ltb i (length xs) ≡ true
get_elem?_within [] i h = absurd (cc)
get_elem?_within (y ∷ xs) zero h = ground arith
get_elem?_within (y ∷ xs) (suc i) h = ground (arith, get_elem?_within xs i h)

pub Leads-IsRoot : (parent : List ℕ) {n id root : ℕ} → Leads parent n id root → IsRoot parent root
Leads-IsRoot parent (arrived r) = r
Leads-IsRoot parent (step e ne up) = Leads-IsRoot parent up

pub not_root :
    (parent : List ℕ) (id next : ℕ)
    → get_elem? parent id ≡ some next
    → (next == id) ≡ false
    → IsRoot parent id
    → ⊥
not_root parent id next e ne (inl h) = let f : none ≡ some next = sym h ∙ e in cc
not_root parent id next e ne (inr h) =
    let f : some id ≡ some next = sym h ∙ e in
    let same : next ≡ id = cc in
    let t : (next == id) ≡ true = (==_iff next id).1 same in let g : true ≡ false = sym t ∙ ne in cc

Leads-unique :
    (parent : List ℕ) {n m id root root' : ℕ}
    → Leads parent n id root
    → Leads parent m id root'
    → root ≡ root'
Leads-unique parent (arrived r) (arrived r') = refl
Leads-unique parent (arrived r) (step e ne up) = absurd (not_root parent _ _ e ne r)
Leads-unique parent (step e ne up) (arrived r) = absurd (not_root parent _ _ e ne r)
Leads-unique parent {root = root} (step {next = next} e ne up) (step {next = next'} e' ne' up') =
    let f : some next ≡ some next' = sym e ∙ e' in
    let same : next ≡ next' = cc in Leads-unique parent (rw same at up) up'

module _ (parent : List ℕ) (id root next : ℕ) (e : get_elem? parent id ≡ some next)
    (ne : (next == id) ≡ false) (at_root : IsRoot parent root) where
  -- A root is another element than `id`.
  other_root : (r : ℕ) → IsRoot parent r → (id == r) ≡ false
  other_root r h = elim (Bool-cases (id == r)) [
    | inl same ↦ absurd (not_root parent id next e ne (rw (← (==_iff id r).0 same) at h))
    | inr other ↦ other
  ]

  kept-IsRoot : (r : ℕ) → IsRoot parent r → IsRoot (set parent id root) r
  kept-IsRoot r h = rw (get_elem?-set parent id r root, other_root r h) h

  compressed_step : Leads (set parent id root) 1 id root
  compressed_step =
      step
        (rw (get_elem?-set parent id id root, (==_iff id id).1 refl, get_elem?_within parent id e)
          refl)
        (let apart = other_root root at_root in ground arith) (arrived (kept-IsRoot root at_root))

  -- Compression leads every element where it led before.
  compressed-Leads :
      {k : ℕ}
      → Leads parent k id root
      → {n j r : ℕ} → Leads parent n j r
      → (m : ℕ) × Leads (set parent id root) m j r × (m ≤ n)
  compressed-Leads here (arrived {root = r} h) = (0, arrived (kept-IsRoot r h), omega arith)
  compressed-Leads here {j = j} {r = r} (step {steps = steps} {next = p} e' ne' up) =
      elim (Bool-cases (id == j)) [
        | inl same ↦
            let own : id ≡ j = (==_iff id j).0 same in
            let whole : Leads parent (suc steps) j r = step e' ne' up in
            let here_too : root ≡ r = Leads-unique parent (rw own at here) whole in
            (1, rw (← own, ← here_too) compressed_step, omega arith)
        | inr other ↦
            let (m, rest, less) = compressed-Leads here up in
            (suc m, step (rw (get_elem?-set parent id j root, other) e') ne' rest, omega arith)
      ]

-- Whatever an element led to, it leads to, in no more steps.
abbrev pub Keeps : List ℕ → List ℕ → Type 0
Keeps parent parent' = (n j r : ℕ) → Leads parent n j r → (m : ℕ) × Leads parent' m j r × (m ≤ n)

length-set : (xs : List ℕ) (i value : ℕ) → length (set xs i value) ≡ length xs
length-set [] i value = refl
length-set (x ∷ xs) zero value = refl
length-set (x ∷ xs) (suc i) value = ground (arith, length-set xs i value)

first_step :
    (parent : List ℕ) {n id root : ℕ}
    → Leads parent n id root
    → (id == root) ≡ false
    → (next : ℕ) × (get_elem? parent id ≡ some next) × ((next == id) ≡ false)
first_step parent {id = id} (arrived h) ne =
    absurd (let f : true ≡ false = sym ((==_iff id id).1 refl) ∙ ne in cc)
first_step parent (step {next = next} e ne' up) ne = (next, e, ne')

-- With fuel for the steps to the root, `find` returns the root, and every element still leads where it
-- led, in no more steps.
pub find-Keeps :
    (fuel : ℕ) (parent : List ℕ) {n id root : ℕ}
    → Leads parent n id root
    → n < fuel
    → (parent' : List ℕ) × (find fuel id parent ≡ some (root, parent'))
      × Keeps parent parent'
      × (length parent' ≡ length parent)
unfolding find
find-Keeps zero parent leads enough = absurd (omega arith)
find-Keeps (suc fuel) parent (arrived (inl outside)) enough =
    (parent, rw (find, outside) refl, λ n j r h. (n, h, le_refl n), refl)
find-Keeps (suc fuel) parent {id = id} (arrived (inr own)) enough =
    (parent, rw (find, own, (==_iff id id).1 refl) refl, λ n j r h. (n, h, le_refl n), refl)
find-Keeps (suc fuel) parent {id = id} {root = root} (step {steps = k} {next = next} e ne up)
      enough =
    let (above, found, keeps, same) = find-Keeps fuel parent up (omega arith) in
    let apart =
      other_root parent id root next e ne (Leads-IsRoot parent up) root (Leads-IsRoot parent up) in
    let (m, here, less) = keeps (suc k) id root (step e ne up) in
    let (next', e', ne') = first_step above here apart in
    (
      set above id root,
      rw (find, e, found, ne) refl,
      λ n j r h.
          let (p, there, fewer) = keeps n j r h in
          let (q, now, least) =
            compressed-Leads above id root next' e' ne' (Leads-IsRoot above here) here there in
          (q, now, le_trans least fewer),
      length-set above id root ∙ same,
    )
