-- ===== src/Regalloc/Members.antt =====
-- Which intervals are active after a step.
use fyra.Prelude.{
  ℕ, zero, suc, ◌+◌, ◌≤◌, ◌≡◌, refl, sym, ◌∙◌, arith, ◌⊎◌, inl, inr, ◌↔◌, Option, none, some, List,
  [], ◌∷◌, ◌++◌, ltb, Bool-cases, get_elem?,
}
use fyra.Prelude.Maps.{find}
use fyra.Regalloc.Interval.{LiveInterval, RegLocation, physical_reg, stack_slot}
use fyra.Regalloc.Scan.{Allocation, release, expire, insert_by_end, sort_by_end, activate, erase_at}
use fyra.Regalloc.Counts.{total, total-free_register, holds, held, Contains}

Contains-insert_by_end :
    (x i : LiveInterval) (js : List LiveInterval)
    → Contains x (insert_by_end i js) ↔ Contains x (i ∷ js)
Contains-insert_by_end x i [] = (λ h. h, λ h. h)
Contains-insert_by_end x i (j ∷ js) = elim (Bool-cases (ltb i.end j.end)) [
  | inl first ↦ rw first (λ h. h, λ h. h)
  | inr later ↦
      let (to, from) = Contains-insert_by_end x i js in
      rw later (
        λ h. elim h [
          | inl e ↦ inr (inl e)
          | inr h' ↦ elim (to h') [ inl e ↦ inl e | inr h'' ↦ inr (inr h'') ]
        ],
        λ h. elim h [
          | inl e ↦ inr (from (inl e))
          | inr h' ↦ elim h' [ inl e ↦ inl e | inr h'' ↦ inr (from (inr h'')) ]
        ],
      )
]

Contains-append :
    (x : LiveInterval) (is js : List LiveInterval)
    → Contains x (is ++ js) ↔ (Contains x is ⊎ Contains x js)
Contains-append x [] js = (λ h. inr h, λ h. elim h [ inl e ↦ absurd e | inr h' ↦ h' ])
Contains-append x (i ∷ is) js =
    let (to, from) = Contains-append x is js in
    (
      λ h. elim h [
        | inl e ↦ inl (inl e)
        | inr h' ↦ elim (to h') [ inl a ↦ inl (inr a) | inr b ↦ inr b ]
      ],
      λ h. elim h [
        | inl a ↦ elim a [ inl e ↦ inl e | inr a' ↦ inr (from (inl a')) ]
        | inr b ↦ inr (from (inr b))
      ],
    )

Contains-sort_by_end :
    (x : LiveInterval) (sorted is : List LiveInterval)
    → Contains x (sort_by_end sorted is) ↔ (Contains x sorted ⊎ Contains x is)
unfolding sort_by_end
Contains-sort_by_end x sorted [] = (λ h. inl h, λ h. elim h [ inl a ↦ a | inr b ↦ absurd b ])
Contains-sort_by_end x sorted (i ∷ is) =
    let (to, from) = Contains-sort_by_end x (insert_by_end i sorted) is in
    let (in_to, in_from) = Contains-insert_by_end x i sorted in
    (
      λ h. elim (to h) [
        | inl a ↦ elim (in_to a) [ inl e ↦ inr (inl e) | inr b ↦ inl b ]
        | inr c ↦ inr (inr c)
      ],
      λ h. elim h [
        | inl b ↦ from (inl (in_from (inr b)))
        | inr d ↦ elim d [ inl e ↦ from (inl (in_from (inl e))) | inr c ↦ from (inr c) ]
      ],
    )

-- The active intervals after one is added.
pub Contains-activate :
    (x i : LiveInterval) (js : List LiveInterval)
    → Contains x (activate i js) ↔ ((x ≡ i) ⊎ Contains x js)
Contains-activate x i js =
    let (to, from) = Contains-sort_by_end x [] (js ++ (i ∷ [])) in
    let (a_to, a_from) = Contains-append x js (i ∷ []) in
    (
      λ h. elim (to h) [
        | inl a ↦ absurd a
        | inr b ↦ elim (a_to b) [
          | inl old ↦ inr old
          | inr new ↦ elim new [ inl e ↦ inl e | inr f ↦ absurd f ]
        ]
      ],
      λ h. elim h [
        | inl e ↦ from (inr (a_from (inr (inl e))))
        | inr old ↦ from (inr (a_from (inl old)))
      ],
    )

-- The active intervals after one is erased.
pub Contains-erase_at :
    (x i : LiveInterval) (k : ℕ) (js : List LiveInterval)
    → get_elem? js k ≡ some i
    → Contains x js
    → (x ≡ i) ⊎ Contains x (erase_at k js)
Contains-erase_at x i k [] e h = absurd h
Contains-erase_at x i zero (j ∷ js) e (inl same) = inl (let s : j ≡ i = cc in same ∙ s)
Contains-erase_at x i zero (j ∷ js) e (inr later) = inr later
Contains-erase_at x i (suc k) (j ∷ js) e (inl same) = inr (inl same)
Contains-erase_at x i (suc k) (j ∷ js) e (inr later) = elim (Contains-erase_at x i k js e later) [
  | inl s ↦ inl s
  | inr left ↦ inr (inr left)
]

pub get_elem?-Contains :
    (i : LiveInterval) (k : ℕ) (js : List LiveInterval) → get_elem? js k ≡ some i → Contains i js
get_elem?-Contains i k [] e = absurd (cc)
get_elem?-Contains i zero (j ∷ js) e = inl (let same : j ≡ i = cc in sym same)
get_elem?-Contains i (suc k) (j ∷ js) e = inr (get_elem?-Contains i k js e)

pub erase_at-Contains :
    (x : LiveInterval) (k : ℕ) (js : List LiveInterval) → Contains x (erase_at k js) → Contains x js
erase_at-Contains x k [] h = h
erase_at-Contains x zero (j ∷ js) h = inr h
erase_at-Contains x (suc k) (j ∷ js) (inl e) = inl e
erase_at-Contains x (suc k) (j ∷ js) (inr h) = inr (erase_at-Contains x k js h)

release-locations :
    (o : Option RegLocation) (a : Allocation) → (release o a).locations ≡ a.locations
unfolding release
release-locations none a = refl
release-locations (some (physical_reg r)) a = refl
release-locations (some (stack_slot index offset)) a = refl

total-release :
    (r : ℕ) (o : Option RegLocation) (a : Allocation)
    → total r (release o a).pools ≡ total r a.pools + holds r o
unfolding release
total-release r none a = omega arith
total-release r (some (physical_reg q)) a = total-free_register r q a.pools
total-release r (some (stack_slot index offset)) a = omega arith

-- What is left of the active intervals, and of the registers, where the old ones are given back.
pub record Expired (point : ℕ) (js : List LiveInterval) (a b : Allocation) : Type 0 where
  pub locations : b.locations ≡ a.locations
  pub conserved :
      (r : ℕ)
      → total r b.pools + held r a.locations b.active ≡ total r a.pools + held r a.locations js
  pub left : (i : LiveInterval) → Contains i b.active → Contains i js
  pub gone : (i : LiveInterval) → Contains i js → Contains i b.active ⊎ (i.end ≤ point)

pub expire-Expired :
    (point : ℕ) (js : List LiveInterval) (a : Allocation) → Expired point js a (expire point js a)
unfolding expire
expire-Expired point [] a = record {
  locations = refl;
  conserved = λ r. refl;
  left = λ i h. h;
  gone = λ i h. inl h;
}
expire-Expired point (j ∷ js) a = elim (Bool-cases (ltb point j.end)) [
  | inl alive ↦
      rw alive
        (record { locations = refl; conserved = λ r. refl; left = λ i h. h; gone = λ i h. inl h })
  | inr ended ↦
      let o = find a.locations j.vreg.id in
      let same = release-locations o a in
      let rest = expire-Expired point js (release o a) in
      rw ended (record {
        locations = rest.locations ∙ same;
        conserved = λ r.
            let moved = rw same at (rest.conserved r) in omega (arith, moved, total-release r o a);
        left = λ i h. inr (rest.left i h);
        gone = λ i h. elim h [ inl e ↦ inr (rw e (ground arith)) | inr later ↦ rest.gone i later ];
      })
]
