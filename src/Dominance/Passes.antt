-- ===== src/Dominance/Passes.antt =====
-- Passes over the blocks: what each change keeps holds of the solved sets, and a pass that changes
-- nothing has found every block's set as it should be.
use fyra.Prelude.{
  ℕ, zero, suc, ◌<◌, ◌≡◌, refl, sym, arith, ◌⊎◌, inl, inr, true, false, some, List, [], ◌∷◌, ◌==◌,
  ==_iff, Bool-cases,
}
use mathlib.Core.Path.{subst}
use fyra.Prelude.Maps.{put}
use fyra.Dominance.Sets.{has, same_set, range}
use fyra.Dominance.Solve.{
  Problem, DomSets, at, new_set, Progress, visit, visit_all, one_pass, iterate,
}
use fyra.Dominance.Members.{has-range, range-has}
use fyra.Dominance.Walks.{Solved}

-- Where a visit changes a set.
abbrev pub Changes : Problem → DomSets → ℕ → Type 0
Changes problem sets b =
    (problem.is_root b ≡ false) × (same_set (new_set problem sets b) (at sets b) ≡ false)

abbrev pub changed_sets : Problem → DomSets → ℕ → DomSets
changed_sets problem sets b = put b (new_set problem sets b) sets

-- Kept by each change.
abbrev pub Kept : Problem → (DomSets → Type 0) → Type 0
Kept problem Inv =
    (sets : DomSets) (b : ℕ)
    → b < problem.size
    → Changes problem sets b
    → Inv sets
    → Inv (changed_sets problem sets b)

pub visit-cases :
    (problem : Problem) (b : ℕ) (p : Progress)
    → (visit problem b p ≡ p)
        × ((problem.is_root b ≡ true) ⊎ (same_set (new_set problem p.sets b) (at p.sets b) ≡ true))
      ⊎ Changes problem p.sets b
        × (visit problem b p ≡ record { sets = changed_sets problem p.sets b; changed = true })
unfolding visit
visit-cases problem b p = elim (Bool-cases (problem.is_root b)) [
  | inl root ↦ inl (rw root refl, inl root)
  | inr other ↦ elim (Bool-cases (same_set (new_set problem p.sets b) (at p.sets b))) [
    | inl same ↦ inl (rw (other, same) refl, inr same)
    | inr differ ↦ inr ((other, differ), rw (other, differ) refl)
  ]
]

visit_all-keeps :
    (problem : Problem) (Inv : DomSets → Type 0) (bs : List ℕ) (p : Progress)
    → Kept problem Inv
    → ((b : ℕ) → has b bs ≡ true → b < problem.size)
    → Inv p.sets
    → Inv (visit_all problem bs p).sets
unfolding visit_all
visit_all-keeps problem Inv [] p kept small inv = inv
visit_all-keeps problem Inv (b ∷ bs) p kept small inv =
    let rest : (c : ℕ) → has c bs ≡ true → c < problem.size = λ c e. small c (ground arith) in
    let here = small b (ground (arith, ==_iff b b)) in
    elim (visit-cases problem b p) [
      | inl (same, why) ↦
          subst (λ q. Inv (visit_all problem bs q).sets) (sym same)
            (visit_all-keeps problem Inv bs p kept rest inv)
      | inr (changes, e) ↦
          let q : Progress = record { sets = changed_sets problem p.sets b; changed = true } in
          subst (λ q. Inv (visit_all problem bs q).sets) (sym e)
            (visit_all-keeps problem Inv bs q kept rest (kept p.sets b here changes inv))
    ]

one_pass-keeps :
    (problem : Problem) (Inv : DomSets → Type 0) (sets : DomSets)
    → Kept problem Inv
    → Inv sets
    → Inv (one_pass problem sets).sets
unfolding one_pass
one_pass-keeps problem Inv sets kept inv =
    visit_all-keeps problem Inv (range problem.size) (record { sets = sets; changed = false }) kept
      (λ b h. has-range b problem.size h) inv

pub visit_all-changed :
    (problem : Problem) (bs : List ℕ) (p : Progress)
    → p.changed ≡ true
    → (visit_all problem bs p).changed ≡ true
unfolding visit_all
visit_all-changed problem [] p e = e
visit_all-changed problem (b ∷ bs) p e = elim (visit-cases problem b p) [
  | inl (same, why) ↦
      subst (λ q. (visit_all problem bs q).changed ≡ true) (sym same)
        (visit_all-changed problem bs p e)
  | inr (changes, f) ↦
      let q : Progress = record { sets = changed_sets problem p.sets b; changed = true } in
      subst (λ q. (visit_all problem bs q).changed ≡ true) (sym f)
        (visit_all-changed problem bs q refl)
]

-- Nothing has changed: the sets stand as they were, and no block wants another.
visit_all-unchanged :
    (problem : Problem) (bs : List ℕ) (p : Progress)
    → (visit_all problem bs p).changed ≡ false
    → ((visit_all problem bs p).sets ≡ p.sets)
      × ((b : ℕ)
          → has b bs ≡ true
          → problem.is_root b ≡ false
          → same_set (new_set problem p.sets b) (at p.sets b) ≡ true)
unfolding visit_all
visit_all-unchanged problem [] p e = (refl, λ b h other. absurd (cc))
visit_all-unchanged problem (b ∷ bs) p e = elim (visit-cases problem b p) [
  | inr (changes, f) ↦
      let q : Progress = record { sets = changed_sets problem p.sets b; changed = true } in
      let on = visit_all-changed problem bs q refl in
      let off = subst (λ q. (visit_all problem bs q).changed ≡ false) f e in absurd (cc)
  | inl (same, why) ↦
      let e' = subst (λ q. (visit_all problem bs q).changed ≡ false) same e in
      let (stays, others) = visit_all-unchanged problem bs p e' in
      (
        subst (λ q. (visit_all problem bs q).sets ≡ p.sets) (sym same) stays,
        λ c h other. elim (Bool-cases (b == c)) [
          | inr differ ↦ others c (ground arith) other
          | inl equal ↦
              let s : b ≡ c = ground (arith, ==_iff b c) in
              elim why [
                | inl root ↦ let root' = rw s at root in absurd (cc)
                | inr done ↦ rw (← s) done
              ]
        ],
      )
]

one_pass-Solved :
    (problem : Problem) (sets : DomSets)
    → (one_pass problem sets).changed ≡ false
    → Solved problem (one_pass problem sets).sets
unfolding one_pass
one_pass-Solved problem sets e =
    let (stays, f) =
      visit_all-unchanged problem (range problem.size) (record { sets = sets; changed = false })
        e in
    rw stays (λ b small other. f b (range-has b problem.size small) other)

pub iterate-keeps :
    (problem : Problem) (Inv : DomSets → Type 0) (fuel : ℕ) (sets : DomSets) {result : DomSets}
    → Kept problem Inv
    → Inv sets
    → iterate fuel problem sets ≡ some result
    → Inv result × Solved problem result
unfolding iterate
iterate-keeps problem Inv zero sets kept inv e = absurd (cc)
iterate-keeps problem Inv (suc fuel) sets {result} kept inv e =
    let inv' = one_pass-keeps problem Inv sets kept inv in
    elim (Bool-cases (one_pass problem sets).changed) [
      | inl on ↦ iterate-keeps problem Inv fuel (one_pass problem sets).sets kept inv' (rw on at e)
      | inr off ↦
          let f : some (one_pass problem sets).sets ≡ some result = rw off at e in
          let same : (one_pass problem sets).sets ≡ result = cc in
          rw (← same) (inv', one_pass-Solved problem sets off)
    ]
