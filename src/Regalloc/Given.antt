-- ===== src/Regalloc/Given.antt =====
-- A new interval gets a stack slot, or a register that was free.
use fyra.Prelude.{
  ℕ, ◌+◌, ◌≤◌, ◌≡◌, refl, sym, ◌∙◌, arith, inl, inr, true, some, List, ◌∷◌, ◌==◌, ==_iff,
}
use mathlib.Core.Path.{subst}
use fyra.Prelude.Maps.{PointerMap, find, put}
use fyra.Regalloc.Interval.{LiveInterval, RegLocation, physical_reg, stack_slot}
use fyra.Regalloc.Pools.{Pools}
use fyra.Regalloc.Scan.{Allocation, allocate_stack_slot, assign}
use fyra.Regalloc.Counts.{one, total, held-activate, held-Contains, Contains}
use fyra.Regalloc.Members.{Contains-activate}
use fyra.Regalloc.Sound.{
  Located, Apart, Fresh, Sound, Narrows, Apart-narrow, ApartFrom-all, held-same,
}

module _ (met : List LiveInterval) (i : LiveInterval) (a : Allocation) (s : Sound met i.start a)
    (fresh : Fresh i met) where
  pub find-put_fresh :
      (l : RegLocation) (j : LiveInterval)
      → Contains j met
      → find (put i.vreg.id l a.locations) j.vreg.id ≡ find a.locations j.vreg.id
  find-put_fresh l j m = rw (fresh j m) refl

  pub find-put_own : (l : RegLocation) → find (put i.vreg.id l a.locations) i.vreg.id ≡ some l
  find-put_own l = rw ((==_iff i.vreg.id i.vreg.id).1 refl) refl

  pub fresh-Narrows : (l : RegLocation) → Narrows a.locations (put i.vreg.id l a.locations) met
  fresh-Narrows l j r m h = sym (find-put_fresh l j m) ∙ h

  slot-Located :
      (index offset r : ℕ) → Located (put i.vreg.id (stack_slot index offset) a.locations) i r → ⊥
  slot-Located index offset r h =
      let e : some (stack_slot index offset) ≡ some (physical_reg r) =
        sym (find-put_own (stack_slot index offset)) ∙ h in
      cc

  pub slot-Sound :
      (index offset : ℕ) (b : Allocation)
      → b.locations ≡ put i.vreg.id (stack_slot index offset) a.locations
      → b.pools ≡ a.pools
      → b.active ≡ a.active
      → Sound (i ∷ met) i.start b
  slot-Sound index offset b locations pools active =
      let l = stack_slot index offset in
      let narrows = fresh-Narrows l in
      record {
        once = λ r.
            rw (locations, pools, active)
              (omega (
                arith,
                s.once r,
                held-same r a.locations (put i.vreg.id l a.locations) a.active
                    (λ j m. find-put_fresh l j (s.known j m)),
              ));
        known = λ j m. inr (s.known j (rw active at m));
        settled = λ j r m h.
            let h' : Located (put i.vreg.id l a.locations) j r = rw locations at h in
            elim m [
              | inl e ↦ absurd (slot-Located index offset r (rw e at h'))
              | inr m' ↦ let kept = s.settled j r m' (narrows j r m' h') in rw active kept
            ];
        apart =
            subst (λ (ls : PointerMap RegLocation). Apart ls (i ∷ met)) (sym locations)
              (
                ApartFrom-all (put i.vreg.id l a.locations) i met
                    (λ j r m f g. absurd (slot-Located index offset r g)),
                Apart-narrow a.locations (put i.vreg.id l a.locations) met narrows s.apart,
              );
      }

  pub allocate_stack_slot-Sound : Sound (i ∷ met) i.start (allocate_stack_slot i.vreg a)
  unfolding allocate_stack_slot
  allocate_stack_slot-Sound =
      slot-Sound a.next_stack_slot _ (allocate_stack_slot i.vreg a) refl refl refl

  own_register : (r q : ℕ) → Located (put i.vreg.id (physical_reg r) a.locations) i q → r ≡ q
  own_register r q h =
      let e : some (physical_reg r) ≡ some (physical_reg q) =
        sym (find-put_own (physical_reg r)) ∙ h in
      cc

  -- A register that was free was left by all intervals that were given it.
  free_register_ended :
      (r : ℕ)
      → 1 ≤ total r a.pools
      → (j : LiveInterval) → Contains j met
      → Located a.locations j r
      → j.end ≤ i.start
  free_register_ended r free j m h = elim (s.settled j r m h) [
    | inr ended ↦ ended
    | inl alive ↦ absurd (omega (arith, s.once r, held-Contains r a.locations j a.active alive h))
  ]

  pub assign-Sound :
      (r : ℕ) (pools : Pools)
      → ((q : ℕ) → total q a.pools ≡ total q pools + one r q)
      → Sound (i ∷ met) i.start (assign i r (record a { pools = pools }))
  unfolding assign
  assign-Sound r pools taken =
      let l = physical_reg r in
      let narrows = fresh-Narrows l in
      let own : (r == r) ≡ true = (==_iff r r).1 refl in
      let free : 1 ≤ total r a.pools = let t = rw own at (taken r) in omega (arith, t) in
      record {
        once = λ q.
            let h =
              rw (find-put_own l) at (held-activate q (put i.vreg.id l a.locations) i a.active) in
            omega (
              arith,
              s.once q,
              taken q,
              h,
              held-same q a.locations (put i.vreg.id l a.locations) a.active
                  (λ j m. find-put_fresh l j (s.known j m)),
            );
        known = λ j m. elim ((Contains-activate j i a.active).0 m) [
          | inl e ↦ inl e
          | inr old ↦ inr (s.known j old)
        ];
        settled = λ j q m h. elim m [
          | inl e ↦ inl ((Contains-activate j i a.active).1 (inl e))
          | inr m' ↦ elim (s.settled j q m' (narrows j q m' h)) [
            | inl alive ↦ inl ((Contains-activate j i a.active).1 (inr alive))
            | inr ended ↦ inr ended
          ]
        ];
        apart = (
          ApartFrom-all (put i.vreg.id l a.locations) i met (λ j q m f g.
              let same : r ≡ q = own_register r q g in
              free_register_ended r free j m (rw same (narrows j q m f))),
          Apart-narrow a.locations (put i.vreg.id l a.locations) met narrows s.apart,
        );
      }
