-- ===== src/Egraph/Merge.antt =====
-- `merge` joins two classes and leaves the others.
use fyra.Prelude.{
  ℕ, suc, ◌<◌, ◌≡◌, refl, arith, inl, inr, true, false, some, List, ◌==◌, ==_iff, ltb, lt→ltb,
  length, Bool-cases, if◌then◌else◌,
}
use fyra.Egraph.UnionFind.{set, attach, merge_found, merge}
use fyra.Egraph.Roots.{
  IsRoot, Leads, arrived, step, not_root, get_elem?-set, Leads-IsRoot, find-Keeps,
}

module _ (parent : List ℕ) (r1 r2 : ℕ) (root1 : IsRoot parent r1) (root2 : IsRoot parent r2)
    (apart : (r1 == r2) ≡ false) (within : r2 < length parent) where
  abbrev joined : ℕ → ℕ
  joined r = if r == r2 then r1 else r

  turned : (r2 == r1) ≡ false
  turned = ground arith

  attached-IsRoot : IsRoot (set parent r2 r1) r1
  attached-IsRoot = rw (get_elem?-set parent r2 r1 r1, turned) root1

  attached-Leads :
      {n j r : ℕ} → Leads parent n j r → (m : ℕ) × Leads (set parent r2 r1) m j (joined r)
  attached-Leads (arrived {root = r} h) = elim (Bool-cases (r == r2)) [
    | inl same ↦
        let own : r ≡ r2 = (==_iff r r2).0 same in
        (
          1,
          rw (own, (==_iff r2 r2).1 refl)
              (step
                (rw (get_elem?-set parent r2 r2 r1, (==_iff r2 r2).1 refl, lt→ltb _ _ within) refl)
                apart (arrived attached-IsRoot)),
        )
    | inr other ↦
        let reversed : (r2 == r) ≡ false = ground arith in
        (0, rw other (arrived (rw (get_elem?-set parent r2 r r1, reversed) h)))
  ]
  attached-Leads {j = j} (step e ne up) = elim (Bool-cases (r2 == j)) [
    | inl same ↦ absurd (not_root parent j _ e ne (rw ((==_iff r2 j).0 same) at root2))
    | inr other ↦
        let (m, rest) = attached-Leads up in
        (suc m, step (rw (get_elem?-set parent r2 j r1, other) e) ne rest)
  ]

-- The element leads to its old root, or to `r1` where that was `r2`.
abbrev pub Joined : List ℕ → List ℕ → ℕ → ℕ → Type 0
Joined parent parent' r1 r2 =
    (n j r : ℕ) → Leads parent n j r → (m : ℕ) × Leads parent' m j (if r == r2 then r1 else r)

attach-Joined :
    (parent : List ℕ) (r1 r2 : ℕ)
    → IsRoot parent r1
    → IsRoot parent r2
    → r2 < length parent
    → (parent' : List ℕ) × (attach r1 r2 parent ≡ some (r1, parent')) × Joined parent parent' r1 r2
attach-Joined parent r1 r2 root1 root2 within = elim (Bool-cases (r1 == r2)) [
  | inl same ↦
      let own : r1 ≡ r2 = (==_iff r1 r2).0 same in
      (
        parent,
        rw same refl,
        λ n j r h.
            let unchanged : (if r == r2 then r1 else r) ≡ r = ground arith in (n, rw unchanged h),
      )
  | inr apart ↦
      let inside : ltb r2 (length parent) ≡ true = lt→ltb _ _ within in
      (
        set parent r2 r1,
        rw (apart, inside) refl,
        λ n j r h. attached-Leads parent r1 r2 root1 root2 apart within h,
      )
]

-- With fuel for both searches, and a second root inside the vector, `merge` returns the first root;
-- the elements of the second class then lead to it, and all others where they led.
pub merge-Joined :
    (fuel : ℕ) (parent : List ℕ) {n1 id1 r1 n2 id2 r2 : ℕ}
    → Leads parent n1 id1 r1
    → Leads parent n2 id2 r2
    → n1 < fuel
    → n2 < fuel
    → r2 < length parent
    → (parent' : List ℕ) × (merge fuel id1 id2 parent ≡ some (r1, parent'))
      × Joined parent parent' r1 r2
unfolding merge
merge-Joined fuel parent {n1} {id1} {r1} {n2} {id2} {r2} first second enough1 enough2 within =
    let (p1, found1, keeps1, long1) = find-Keeps fuel parent first enough1 in
    let (m1, first1, less1) = keeps1 n1 id1 r1 first in
    let (m2, second1, less2) = keeps1 n2 id2 r2 second in
    let (p2, found2, keeps2, long2) = find-Keeps fuel p1 second1 (omega arith) in
    let (k1, first2, fewer1) = keeps2 m1 id1 r1 first1 in
    let (k2, second2, fewer2) = keeps2 m2 id2 r2 second1 in
    let (p3, attached, joins) =
      attach-Joined p2 r1 r2 (Leads-IsRoot p2 first2) (Leads-IsRoot p2 second2) (omega arith) in
    (
      p3,
      rw (found1, merge_found, found2) attached,
      λ n j r h.
          let (m, h1, less) = keeps1 n j r h in
          let (k, h2, fewer) = keeps2 m j r h1 in joins k j r h2,
    )
