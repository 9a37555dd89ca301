-- ===== src/Dominance/Runner.antt =====
-- The blocks that the runner of a dominance frontier meets.
use fyra.Prelude.{
  ℕ, ◌<◌, ◌≡◌, arith, ◌⊎◌, inl, inr, ◌↔◌, true, false, Option, none, some, List, ◌==◌, ==_iff,
  Bool-cases,
}
use fyra.Dominance.Sets.{has, insert}
use fyra.Dominance.Solve.{Problem, DomSets, at}
use fyra.Dominance.Members.{has-insert, at-put}
use fyra.Dominance.Walks.{Walk, Dominates}
use fyra.Dominance.Immediate.{Dominates-trans, Dominates-antisym}
use fyra.Dominance.Run.{ImmediatelyDominates}
use fyra.Dominance.Climb.{StrictlyDominates}
use fyra.Dominance.Frontier.{same_block, add_frontier}

-- The set of `x` after a walk up: with the block, where `x` passes the walk's test.
abbrev pub Adds : DomSets → DomSets → ℕ → (ℕ → Type 0) → ℕ → Type 0
Adds old new b P size =
    (c x : ℕ)
    → x < size
    → (has c (at new x) ≡ true) ↔ ((has c (at old x) ≡ true) ⊎ (((b == c) ≡ true) × P x))

-- The blocks above `r` that do not strictly dominate `b`.
abbrev pub Below : Problem → ℕ → ℕ → ℕ → Type 0
Below problem b r x = Dominates problem x r × ¬ (StrictlyDominates problem x b)

-- The walk up ends where it should: nothing strictly dominates the block, or its immediate dominator
-- is above the runner.
abbrev pub StopsAt : Problem → ℕ → ℕ → Option ℕ → Type 0
StopsAt problem b r none = (x : ℕ) → ¬ (StrictlyDominates problem x b)
StopsAt problem b r (some s) =
    (s < problem.size) × (ImmediatelyDominates problem s b × Dominates problem s r)

pub has-add_frontier :
    (frontiers : DomSets) (r b c x : ℕ)
    → (has c (at (add_frontier r b frontiers) x) ≡ true)
      ↔ ((has c (at frontiers x) ≡ true) ⊎ (((b == c) ≡ true) × (r ≡ x)))
has-add_frontier frontiers r b c x = elim (Bool-cases (r == x)) [
  | inr apart ↦
      rw (at-put r x (insert b (at frontiers r)) frontiers, apart)
        (
          λ h. inl h,
          λ h. elim h [
            | inl old ↦ old
            | inr new ↦ (let (e, same) = new in absurd (ground (arith, ==_iff r x, same)))
          ],
        )
  | inl same ↦
      let s : r ≡ x = ground (arith, ==_iff r x) in
      rw (at-put r x (insert b (at frontiers r)) frontiers, same)
        (
          λ h. elim (Bool-cases (b == c)) [
            | inl e ↦ inr (e, s)
            | inr f ↦
                let h' : has c (at frontiers r) ≡ true =
                  ground (arith, has-insert c b (at frontiers r)) in
                inl (rw (← s) h')
          ],
          λ h. elim h [
            | inl old ↦
                let old' : has c (at frontiers r) ≡ true = rw s old in
                ground (arith, has-insert c b (at frontiers r))
            | inr new ↦ (let (e, same') = new in ground (arith, has-insert c b (at frontiers r)))
          ],
        )
]

-- The runner that is not the block's immediate dominator does not strictly dominate the block.
pub not_above :
    (problem : Problem) (b r : ℕ) (stop : Option ℕ) (ps : List ℕ)
    → Walk problem r ps
    → r < problem.size
    → StopsAt problem b r stop
    → same_block (some r) stop ≡ false
    → ¬ (StrictlyDominates problem r b)
not_above problem b r none ps walk small stops differ strict = stops r strict
not_above problem b r (some s) ps walk small (small_s, (imm, over)) differ (apart, r_over) =
    let up = imm.closest r small apart r_over in
    let equal = Dominates-antisym problem r s ps walk up over in
    absurd (ground (arith, ==_iff r s, equal))

-- What is above the immediate dominator strictly dominates the block.
pub none-Below :
    (problem : Problem) (b r x : ℕ) (stop : Option ℕ) (ps : List ℕ)
    → Walk problem b ps
    → StopsAt problem b r stop
    → same_block (some r) stop ≡ true
    → Below problem b r x
    → ⊥
none-Below problem b r x none ps walk stops same below = absurd (cc)
none-Below problem b r x (some s) ps walk (small_s, (imm, over)) same (up, not_strict) =
    let equal : r ≡ s = ground (arith, ==_iff r s) in
    let up' : Dominates problem x s = rw (← equal) up in
    not_strict (
      elim (Bool-cases (x == b)) [
        | inr apart ↦ apart
        | inl e ↦
            let x_b : x ≡ b = ground (arith, ==_iff x b) in
            let back : Dominates problem b s = rw (← x_b) up' in
            let same_s = Dominates-antisym problem b s ps walk back imm.dominates in
            let other = imm.other in absurd (ground (arith, ==_iff s b, same_s))
      ],
      Dominates-trans problem x s b up' imm.dominates,
    )
