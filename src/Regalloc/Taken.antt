-- ===== src/Regalloc/Taken.antt =====
-- A new interval takes the register of an active one, which goes to the stack.
use fyra.Prelude.{
  ℕ, ◌+◌, ◌≤◌, ◌≡◌, refl, sym, ◌∙◌, arith, inl, inr, true, false, some, List, ◌∷◌, ◌==◌, ==_iff,
  Bool-cases, get_elem?,
}
use mathlib.Core.Path.{subst}
use fyra.Prelude.Maps.{PointerMap, find, put}
use fyra.Regalloc.Interval.{LiveInterval, RegLocation, physical_reg, stack_slot}
use fyra.Regalloc.Scan.{Allocation, activate, erase_at}
use fyra.Regalloc.Counts.{one, held, held-activate, held-erase_at, held-Contains, Contains}
use fyra.Regalloc.Members.{
  Contains-activate, Contains-erase_at, get_elem?-Contains, erase_at-Contains,
}
use fyra.Regalloc.Given.{find-put_fresh, find-put_own, fresh-Narrows}
use fyra.Regalloc.Sound.{
  Located, Apart, Fresh, Sound, Narrows, Apart-narrow, ApartFrom-all, held-same, held-put_slot,
}

-- The candidate `c` at position `k` gives its register to the new interval `i`.
module _ (met : List LiveInterval) (i : LiveInterval) (a : Allocation) (s : Sound met i.start a)
    (fresh : Fresh i met) (k r : ℕ) (c : LiveInterval) (at_k : get_elem? a.active k ≡ some c)
    (its : Located a.locations c r) (index offset : ℕ) where
  abbrev pub moved : PointerMap RegLocation
  moved = put c.vreg.id (stack_slot index offset) (put i.vreg.id (physical_reg r) a.locations)

  candidate_met : Contains c met
  candidate_met = s.known c (get_elem?-Contains c k a.active at_k)

  candidate_slot : (q : ℕ) → Located moved c q → ⊥
  candidate_slot q h =
      let own : (c.vreg.id == c.vreg.id) ≡ true = (==_iff c.vreg.id c.vreg.id).1 refl in
      let e : some (stack_slot index offset) ≡ some (physical_reg q) = rw own at h in cc

  moved-Narrows : Narrows a.locations moved met
  moved-Narrows j q m h = elim (Bool-cases (c.vreg.id == j.vreg.id)) [
    | inl same ↦
        let e : some (stack_slot index offset) ≡ some (physical_reg q) = rw same at h in absurd (cc)
    | inr other ↦
        let h' : Located (put i.vreg.id (physical_reg r) a.locations) j q = rw other at h in
        fresh-Narrows met i a s fresh (physical_reg r) j q m h'
  ]

  other_id : (c.vreg.id == i.vreg.id) ≡ false
  other_id =
      let f = fresh c candidate_met in
      ground (arith, ==_iff c.vreg.id i.vreg.id, ==_iff i.vreg.id c.vreg.id)

  moved_own : find moved i.vreg.id ≡ some (physical_reg r)
  moved_own = rw other_id (find-put_own met i a s fresh (physical_reg r))

  moved_register : (q : ℕ) → Located moved i q → r ≡ q
  moved_register q h =
      let e : some (physical_reg r) ≡ some (physical_reg q) = sym moved_own ∙ h in cc

  -- An active interval with a register that is not the candidate stays active.
  stays :
      (j : LiveInterval) (q : ℕ)
      → Contains j a.active
      → Located moved j q
      → Contains j (erase_at k a.active)
  stays j q m h = elim (Contains-erase_at j c k a.active at_k m) [
    | inl e ↦ absurd (candidate_slot q (rw e at h))
    | inr left ↦ left
  ]

  held_before :
      (q : ℕ) → held q a.locations a.active ≡ one r q + held q a.locations (erase_at k a.active)
  held_before q = rw its at (held-erase_at q a.locations k a.active at_k)

  held_after :
      (q : ℕ) → held q moved (activate i (erase_at k a.active)) ≤ held q a.locations a.active
  held_after q =
      let rest = erase_at k a.active in
      let h = rw moved_own at (held-activate q moved i rest) in
      omega (
        arith,
        held_before q,
        h,
        held-put_slot q (put i.vreg.id (physical_reg r) a.locations) c.vreg.id index offset rest,
        held-same q a.locations (put i.vreg.id (physical_reg r) a.locations) rest (λ j m.
            find-put_fresh met i a s fresh (physical_reg r) j
              (s.known j (erase_at-Contains j k a.active m))),
      )

  -- Nothing but the candidate held its register.
  taken_register_ended :
      (j : LiveInterval) (q : ℕ) → r ≡ q → Contains j met → Located moved j q → j.end ≤ i.start
  taken_register_ended j q same m h =
      let before = moved-Narrows j q m h in
      elim (s.settled j q m before) [
        | inr ended ↦ ended
        | inl alive ↦
            let own : (r == q) ≡ true = (==_iff r q).1 same in
            let both = rw own at (held_before q) in
            absurd (
              omega (
                arith,
                s.once q,
                both,
                held-Contains q a.locations j (erase_at k a.active) (stays j q alive h) before,
              ))
      ]

  pub taken-Sound :
      (b : Allocation)
      → b.locations ≡ moved
      → b.pools ≡ a.pools
      → b.active ≡ activate i (erase_at k a.active)
      → Sound (i ∷ met) i.start b
  taken-Sound b locations pools active = record {
    once = λ q. rw (locations, pools, active) (omega (arith, s.once q, held_after q));
    known = λ j m. elim ((Contains-activate j i (erase_at k a.active)).0 (rw active at m)) [
      | inl e ↦ inl e
      | inr old ↦ inr (s.known j (erase_at-Contains j k a.active old))
    ];
    settled = λ j q m h.
        let h' : Located moved j q = rw locations at h in
        rw active (elim m [
          | inl e ↦ inl ((Contains-activate j i (erase_at k a.active)).1 (inl e))
          | inr m' ↦ elim (s.settled j q m' (moved-Narrows j q m' h')) [
            | inl alive ↦
                inl ((Contains-activate j i (erase_at k a.active)).1 (inr (stays j q alive h')))
            | inr ended ↦ inr ended
          ]
        ]);
    apart =
        subst (λ (ls : PointerMap RegLocation). Apart ls (i ∷ met)) (sym locations)
          (
            ApartFrom-all moved i met
                (λ j q m f g. taken_register_ended j q (moved_register q g) m f),
            Apart-narrow a.locations moved met moved-Narrows s.apart,
          );
  }
