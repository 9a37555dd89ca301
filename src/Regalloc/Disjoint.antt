-- ===== src/Regalloc/Disjoint.antt =====
-- Two intervals that were given one register do not overlap.
use fyra.Prelude.{
  ℕ, ◌+◌, ◌≤◌, ◌≡◌, refl, sym, arith, inl, inr, Bool, not, ◌||◌, Option, none, some, List, ◌∷◌, leb,
  Bool-cases, get_elem?,
}
use mathlib.Core.Path.{subst}
use fyra.Prelude.Maps.{PointerMap, find}
use fyra.Regalloc.Interval.{LiveInterval, RegLocation, physical_reg, stack_slot}
use fyra.Regalloc.Pools.{Pools, choose_register}
use fyra.Regalloc.Scan.{
  Allocation, expire_old_intervals, take_over, spill_over, spill_against, least, spill_at_interval,
  place, in_xmm, preferred_register, scan_one,
}
use fyra.Regalloc.Counts.{one, total, total-choose_register}
use fyra.Regalloc.Members.{expire-Expired}
use fyra.Regalloc.Given.{allocate_stack_slot-Sound, assign-Sound}
use fyra.Regalloc.Taken.{taken-Sound}
use fyra.Regalloc.Sound.{Located, Apart, Fresh, Sound}

module _ (met : List LiveInterval) (i : LiveInterval) (a : Allocation) (s : Sound met i.start a)
    (fresh : Fresh i met) where
  take_over-Sound :
      (k r : ℕ) (c : LiveInterval)
      → get_elem? a.active k ≡ some c
      → Located a.locations c r
      → Sound (i ∷ met) i.start (take_over i c k r a)
  unfolding take_over
  take_over-Sound k r c at_k its =
      taken-Sound met i a s fresh k r c at_k its a.next_stack_slot _ (take_over i c k r a) refl refl
        refl

  spill_over-Sound :
      (k : ℕ) (c : LiveInterval) (o : Option RegLocation)
      → get_elem? a.active k ≡ some c
      → find a.locations c.vreg.id ≡ o
      → Sound (i ∷ met) i.start (spill_over i c k o a)
  unfolding spill_over
  spill_over-Sound k c none at_k its = allocate_stack_slot-Sound met i a s fresh
  spill_over-Sound k c (some (stack_slot index offset)) at_k its =
      allocate_stack_slot-Sound met i a s fresh
  spill_over-Sound k c (some (physical_reg r)) at_k its =
      elim (Bool-cases (not i.live_across_call || leb 8 r)) [
        | inl fits ↦ rw fits (take_over-Sound k r c at_k its)
        | inr clobbered ↦ rw clobbered (allocate_stack_slot-Sound met i a s fresh)
      ]

  spill_at_interval-Sound :
      (lighter : LiveInterval → LiveInterval → Bool)
      → Sound (i ∷ met) i.start (spill_at_interval lighter i a)
  unfolding spill_at_interval
  spill_at_interval-Sound lighter = go (least lighter a.active) (get_elem? a.active _) refl
    where
      go :
          (k : ℕ) (o : Option LiveInterval)
          → get_elem? a.active k ≡ o
          → Sound (i ∷ met) i.start (spill_against lighter i k o a)
      go k none e = allocate_stack_slot-Sound met i a s fresh
      go k (some c) e = elim (Bool-cases (lighter c i)) [
        | inl light ↦ rw light (spill_over-Sound k c _ e refl)
        | inr heavy ↦ rw heavy (allocate_stack_slot-Sound met i a s fresh)
      ]

  place-Sound :
      (lighter : LiveInterval → LiveInterval → Bool) (o : Option (ℕ × Pools))
      → ((r : ℕ) (pools : Pools)
          → o ≡ some (r, pools)
          → (q : ℕ) → total q a.pools ≡ total q pools + one r q)
      → Sound (i ∷ met) i.start (place lighter i o a)
  unfolding place
  place-Sound lighter none chosen = spill_at_interval-Sound lighter
  place-Sound lighter (some (r, pools)) chosen =
      assign-Sound met i a s fresh r pools (chosen r pools refl)

expire-Sound :
    (met : List LiveInterval) (point later : ℕ) (a : Allocation)
    → point ≤ later
    → Sound met point a
    → Sound met later (expire_old_intervals later a)
expire-Sound met point later a le s =
    let e = expire-Expired later a.active a in
    record {
      once = λ r. let c = e.conserved r in rw e.locations (omega (arith, s.once r, c));
      known = λ i m. s.known i (e.left i m);
      settled = λ i r m h. elim (s.settled i r m (rw e.locations at h)) [
        | inl alive ↦ e.gone i alive
        | inr ended ↦ inr (omega arith)
      ];
      apart = subst (λ (ls : PointerMap RegLocation). Apart ls met) (sym e.locations) s.apart;
    }

pub scan_one-Sound :
    (lighter : LiveInterval → LiveInterval → Bool) (met : List LiveInterval) (point : ℕ)
    (i : LiveInterval) (a : Allocation)
    → point ≤ i.start
    → Fresh i met
    → Sound met point a
    → Sound (i ∷ met) i.start (scan_one lighter i a)
unfolding scan_one
scan_one-Sound lighter met point i a le fresh s =
    let b = expire_old_intervals i.start a in
    let preferred = preferred_register i.vreg.operand b.registers in
    place-Sound met i b (expire-Sound met point i.start a le s) fresh lighter
      (choose_register (in_xmm i.vreg) i.live_across_call preferred b.pools)
      (λ r pools e q.
        total-choose_register (in_xmm i.vreg) i.live_across_call preferred q b.pools e)
