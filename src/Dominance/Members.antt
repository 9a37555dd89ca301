-- ===== src/Dominance/Members.antt =====
-- Which blocks stand in the sets that the iteration makes.
use fyra.Prelude.{
  ℕ, zero, suc, ◌<◌, ◌≡◌, refl, arith, inl, inr, ◌↔◌, true, false, ◌&&◌, ◌||◌, List, [], ◌∷◌, ◌++◌,
  ◌==◌, ==_iff, Bool-cases, if◌then◌else◌,
}
use fyra.Prelude.Maps.{put}
use fyra.Dominance.Sets.{has, intersect, insert, erase, subset, range}
use fyra.Dominance.Solve.{Problem, DomSets, at, initial_set, initial_sets, intersect_all, meet}

pub has-intersect : (d : ℕ) (xs ys : List ℕ) → has d (intersect xs ys) ≡ (has d xs && has d ys)
has-intersect d [] ys = refl
has-intersect d (x ∷ xs) ys = ground (
  arith,
  has-intersect d xs ys,
  ==_iff x d,
  Bool-cases (has d xs),
  Bool-cases (has d ys),
  Bool-cases (has x ys),
)

pub has-insert : (d b : ℕ) (xs : List ℕ) → has d (insert b xs) ≡ ((b == d) || has d xs)
has-insert d b xs = ground (arith, ==_iff b d, Bool-cases (has d xs))

pub has-append : (d : ℕ) (xs ys : List ℕ) → has d (xs ++ ys) ≡ (has d xs || has d ys)
has-append d [] ys = refl
has-append d (x ∷ xs) ys = ground (arith, has-append d xs ys)

pub has-range : (d n : ℕ) → has d (range n) ≡ true → d < n
has-range d zero h = absurd (cc)
has-range d (suc n) h = ground (arith, has-append d (range n) (n ∷ []), has-range d n, ==_iff n d)

pub range-has : (d n : ℕ) → d < n → has d (range n) ≡ true
range-has d zero h = ground arith
range-has d (suc n) h = ground (arith, has-append d (range n) (n ∷ []), range-has d n, ==_iff n d)

pub has-erase :
    (d b : ℕ) (xs : List ℕ) → has d (erase b xs) ≡ true ↔ ((has d xs ≡ true) × ((d == b) ≡ false))
has-erase d b [] = (λ h. absurd (cc), λ (h, e). absurd (cc))
has-erase d b (x ∷ xs) =
    let (to, from) = has-erase d b xs in (λ h. ground (arith, to), λ (h, e). ground (arith, from))

pub subset-has : (d : ℕ) (xs ys : List ℕ) → subset xs ys ≡ true → has d xs ≡ true → has d ys ≡ true
subset-has d [] ys s h = absurd (cc)
subset-has d (x ∷ xs) ys s h = ground (arith, subset-has d xs ys, ==_iff x d)

-- A list with a block that another does not have.
pub subset-missing :
    (xs ys : List ℕ) → subset xs ys ≡ false → (d : ℕ) × ((has d xs ≡ true) × (has d ys ≡ false))
subset-missing [] ys s = absurd (cc)
subset-missing (x ∷ xs) ys s = elim (Bool-cases (has x ys)) [
  | inr missing ↦ (x, (ground arith, missing))
  | inl present ↦ let (d, (h, k)) = subset-missing xs ys (ground arith) in (d, (ground arith, k))
]

pub has-subset :
    (xs ys : List ℕ) → ((d : ℕ) → has d xs ≡ true → has d ys ≡ true) → subset xs ys ≡ true
has-subset xs ys f = elim (Bool-cases (subset xs ys)) [
  | inl s ↦ s
  | inr s ↦ let (d, (h, k)) = subset-missing xs ys s in let there = f d h in absurd (cc)
]

pub at-put :
    (b c : ℕ) (xs : List ℕ) (sets : DomSets)
    → at (put b xs sets) c ≡ (if b == c then xs else at sets c)
at-put b c xs sets = elim (Bool-cases (b == c)) [ inl e ↦ rw e (refl) | inr e ↦ rw e (refl) ]

pub at-initial_sets :
    (problem : Problem) (b : ℕ) (bs : List ℕ)
    → at (initial_sets problem bs) b ≡ (if has b bs then initial_set problem b else [])
at-initial_sets problem b [] = refl
at-initial_sets problem b (c ∷ bs) = elim (Bool-cases (c == b)) [
  | inl e ↦ let same : c ≡ b = ground (arith, ==_iff c b) in rw (e) (rw same refl)
  | inr e ↦ rw e (at-initial_sets problem b bs)
]

-- In the intersection of all sets: in the first, and in each of the others.
pub has-intersect_all :
    (sets : DomSets) (d : ℕ) (acc ps : List ℕ)
    → has d (intersect_all sets acc ps) ≡ true
      ↔ ((has d acc ≡ true) × ((p : ℕ) → has p ps ≡ true → has d (at sets p) ≡ true))
has-intersect_all sets d acc [] = (λ h. (h, λ p e. absurd (cc)), λ (h, f). h)
has-intersect_all sets d acc (q ∷ ps) =
    let (to, from) = has-intersect_all sets d (intersect acc (at sets q)) ps in
    let both = has-intersect d acc (at sets q) in
    (
      λ h.
          let (first, others) = to h in
          (
            ground arith,
            λ p e. elim (Bool-cases (q == p)) [
              | inl same ↦ let s : q ≡ p = ground (arith, ==_iff q p) in rw (← s) (ground arith)
              | inr other ↦ others p (ground arith)
            ],
          ),
      λ (h, f).
          let there = f q (ground (arith, ==_iff q q)) in
          from (ground arith, λ p e. f p (ground arith)),
    )

-- In the new set of a block: the block, and what all sources have.
pub has-meet :
    (sets : DomSets) (d p : ℕ) (ps : List ℕ)
    → has d (meet sets ps) ≡ true
    → has p ps ≡ true
    → has d (at sets p) ≡ true
has-meet sets d p [] h e = absurd (cc)
has-meet sets d p (q ∷ ps) h e =
    let (first, others) = (has-intersect_all sets d (at sets q) ps).0 h in
    elim (Bool-cases (q == p)) [
      | inl same ↦ let s : q ≡ p = ground (arith, ==_iff q p) in rw (← s) first
      | inr other ↦ others p (ground arith)
    ]

pub meet-has :
    (sets : DomSets) (d p : ℕ) (ps : List ℕ)
    → has p ps ≡ true
    → ((q : ℕ) → has q ps ≡ true → has d (at sets q) ≡ true)
    → has d (meet sets ps) ≡ true
meet-has sets d p [] e f = absurd (cc)
meet-has sets d p (q ∷ ps) e f =
    (has-intersect_all sets d (at sets q) ps).1
      (f q (ground (arith, ==_iff q q)), λ r k. f r (ground arith))

pub meet_source :
    (sets : DomSets) (d : ℕ) (ps : List ℕ)
    → has d (meet sets ps) ≡ true
    → (p : ℕ) × (has p ps ≡ true)
meet_source sets d [] h = absurd (cc)
meet_source sets d (p ∷ ps) h = (p, ground (arith, ==_iff p p))
