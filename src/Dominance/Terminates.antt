-- ===== src/Dominance/Terminates.antt =====
-- The iteration ends.
use fyra.Prelude.{
  ℕ, zero, suc, ◌+◌, ◌*◌, ◌<◌, ◌≤◌, ◌≡◌, refl, sym, arith, inl, inr, true, false, some, List, [],
  ◌∷◌, ==_iff, Bool-cases,
}
use mathlib.Core.Path.{subst}
use fyra.Dominance.Sets.{has, range}
use fyra.Dominance.Solve.{
  Problem, DomSets, at, initial_sets, Progress, visit_all, one_pass, iterate, solve,
}
use fyra.Dominance.Members.{has-range}
use fyra.Dominance.Passes.{changed_sets, visit-cases}
use fyra.Dominance.Fuel.{
  one, tally, sum-≤, tally-≤, measure, Shrinks, changed_sets-Shrinks, measure-changed_sets,
  initial_sets-Shrinks,
}

-- What a pass has left, against what it started with.
record Lowered (problem : Problem) (p q : Progress) : Type 0 where
  shrinks : Shrinks problem q.sets
  lower : measure problem q.sets + one q.changed ≤ measure problem p.sets + one p.changed

visit_all-Lowered :
    (problem : Problem) (bs : List ℕ) (p : Progress)
    → ((b : ℕ) → has b bs ≡ true → b < problem.size)
    → Shrinks problem p.sets
    → Lowered problem p (visit_all problem bs p)
unfolding visit_all
visit_all-Lowered problem [] p small shrinks = record { shrinks = shrinks; lower = omega arith }
visit_all-Lowered problem (b ∷ bs) p small shrinks =
    let rest : (c : ℕ) → has c bs ≡ true → c < problem.size = λ c e. small c (ground arith) in
    let here = small b (ground (arith, ==_iff b b)) in
    elim (visit-cases problem b p) [
      | inl (same, why) ↦
          subst (λ q. Lowered problem p (visit_all problem bs q)) (sym same)
            (visit_all-Lowered problem bs p rest shrinks)
      | inr (changes, e) ↦
          let q : Progress = record { sets = changed_sets problem p.sets b; changed = true } in
          let less = measure-changed_sets problem p.sets b here changes shrinks in
          let after =
            visit_all-Lowered problem bs q rest
              (changed_sets-Shrinks problem p.sets b here changes shrinks) in
          subst (λ r. Lowered problem p (visit_all problem bs r)) (sym e)
            (record { shrinks = after.shrinks; lower = omega (arith, after.lower, less) })
    ]

one_pass-Lowered :
    (problem : Problem) (sets : DomSets)
    → Shrinks problem sets
    → Lowered problem (record { sets = sets; changed = false }) (one_pass problem sets)
unfolding one_pass
one_pass-Lowered problem sets shrinks =
    visit_all-Lowered problem (range problem.size) _ (λ b h. has-range b problem.size h) shrinks

iterate-some :
    (problem : Problem) (fuel : ℕ) (sets : DomSets)
    → Shrinks problem sets
    → measure problem sets < fuel
    → (result : DomSets) × (iterate fuel problem sets ≡ some result)
unfolding iterate
iterate-some problem zero sets shrinks enough = absurd (omega (arith, enough))
iterate-some problem (suc fuel) sets shrinks enough =
    let pass = one_pass problem sets in
    let lowered = one_pass-Lowered problem sets shrinks in
    elim (Bool-cases pass.changed) [
      | inl on ↦
          let less : measure problem pass.sets + 1 ≤ measure problem sets + 0 =
            rw on at lowered.lower in
          let (result, e) =
            iterate-some problem fuel pass.sets lowered.shrinks (omega (arith, less)) in
          (result, rw on e)
      | inr off ↦ (pass.sets, rw off refl)
    ]

measure-≤ :
    (problem : Problem) (sets : DomSets) → measure problem sets ≤ problem.size * problem.size
measure-≤ problem sets =
    sum-≤ problem.size problem.size (λ b. tally problem.size (λ d. has d (at sets b)))
      (λ b. tally-≤ problem.size (λ d. has d (at sets b)))

-- On every graph the iteration over the sets ends: as many passes as the square of the number of
-- blocks, and one more, are enough for a pass that changes nothing.
pub solve-some : (problem : Problem) → (sets : DomSets) × (solve problem ≡ some sets)
unfolding solve
solve-some problem =
    let sets = initial_sets problem (range problem.size) in
    iterate-some problem (suc (problem.size * problem.size)) sets (initial_sets-Shrinks problem)
      (omega (arith, measure-≤ problem sets))
