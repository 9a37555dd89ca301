-- ===== src/Regalloc/Crossing.antt =====
-- The registers of values that are live across a call, through the scan.
use fyra.Prelude.{
  ℕ, ◌≤◌, ◌≡◌, refl, ◌∙◌, arith, inl, inr, Bool, true, not, ◌&&◌, ◌||◌, Option, none, some, List,
  [], ◌∷◌, ◌==◌, ==_iff, All, Bool-cases, leb, ltb, get_elem?,
}
use fyra.Prelude.Maps.{PointerMap, find, put}
use fyra.Regalloc.Interval.{Instruction, LiveInterval, RegLocation, physical_reg, stack_slot}
use fyra.Regalloc.Pools.{Pools, initial_callee, scratch_register, without_scratch, all_xmm}
use fyra.Regalloc.Scan.{
  Allocation, release, expire, expire_old_intervals, allocate_stack_slot, assign, take_over,
  spill_over, spill_against, least, spill_at_interval, in_xmm, preferred_register, place, scan_one,
  linear_scan, initial, run,
}
use fyra.Regalloc.Calls.{High, HighPools, HighChoice, choose_register-High, free_register-High}

-- Values that cross a call have no caller-saved register.
abbrev Crosses : (ℕ → Bool) → PointerMap RegLocation → Type 0
Crosses across locations =
    (id r : ℕ) → across id ≡ true → find locations id ≡ some (physical_reg r) → 8 ≤ r

record Guarded (across : ℕ → Bool) (a : Allocation) : Type 0 where
  pools : HighPools a.pools
  placed : Crosses across a.locations

Crosses-put :
    (across : ℕ → Bool) (locations : PointerMap RegLocation) (id : ℕ) (location : RegLocation)
    → ((r : ℕ) → across id ≡ true → location ≡ physical_reg r → 8 ≤ r)
    → Crosses across locations
    → Crosses across (put id location locations)
Crosses-put across locations id location f crosses other r h e = elim (Bool-cases (id == other)) [
  | inr apart ↦ crosses other r h (rw apart at e)
  | inl same ↦
      let s : id ≡ other = ground (arith, ==_iff id other) in
      let e' : some location ≡ some (physical_reg r) = rw same at e in f r (rw s h) (cc)
]

allocate-Guarded :
    (across : ℕ → Bool) (vreg : Instruction) (a : Allocation)
    → Guarded across a
    → Guarded across (allocate_stack_slot vreg a)
unfolding allocate_stack_slot
allocate-Guarded across vreg a g = record {
  pools = g.pools;
  placed = Crosses-put across a.locations vreg.id (stack_slot _ _) (λ r h e. absurd (cc)) g.placed;
}

release-Guarded :
    (across : ℕ → Bool) (o : Option RegLocation) (a : Allocation)
    → Guarded across a
    → Guarded across (release o a)
unfolding release
release-Guarded across none a g = g
release-Guarded across (some (physical_reg r)) a g = record {
  pools = free_register-High r a.pools g.pools;
  placed = g.placed;
}
release-Guarded across (some (stack_slot index offset)) a g = record {
  pools = g.pools;
  placed = g.placed;
}

expire-Guarded :
    (across : ℕ → Bool) (point : ℕ) (is : List LiveInterval) (a : Allocation)
    → Guarded across a
    → Guarded across (expire point is a)
unfolding expire
expire-Guarded across point [] a g = record { pools = g.pools; placed = g.placed }
expire-Guarded across point (i ∷ is) a g = elim (Bool-cases (ltb point i.end)) [
  | inl alive ↦ rw alive (record { pools = g.pools; placed = g.placed })
  | inr ended ↦
      let o = find a.locations i.vreg.id in
      rw ended (expire-Guarded across point is (release o a) (release-Guarded across o a g))
]

-- The value of the interval has the register.
given-Crosses :
    (across : ℕ → Bool) (locations : PointerMap RegLocation) (id r : ℕ)
    → (across id ≡ true → 8 ≤ r)
    → Crosses across locations
    → Crosses across (put id (physical_reg r) locations)
given-Crosses across locations id r large crosses =
    Crosses-put across locations id (physical_reg r)
      (λ q h e. let same : r ≡ q = cc in rw (← same) (large h)) crosses

spill_over-Guarded :
    (across : ℕ → Bool) (i j : LiveInterval) (k : ℕ) (o : Option RegLocation) (a : Allocation)
    → i.live_across_call ≡ across i.vreg.id
    → Guarded across a
    → Guarded across (spill_over i j k o a)
unfolding spill_over take_over
spill_over-Guarded across i j k none a same g = allocate-Guarded across i.vreg a g
spill_over-Guarded across i j k (some (stack_slot index offset)) a same g =
    allocate-Guarded across i.vreg a g
spill_over-Guarded across i j k (some (physical_reg r)) a same g =
    elim (Bool-cases (not i.live_across_call || leb 8 r)) [
      | inr kept ↦ rw kept (allocate-Guarded across i.vreg a g)
      | inl taken ↦
          let large : across i.vreg.id ≡ true → 8 ≤ r =
            λ h. (let crosses : i.live_across_call ≡ true = same ∙ h in ground arith) in
          let b : Allocation = record a {
            locations = put i.vreg.id (physical_reg r) a.locations;
            registers = put j.vreg.id none (put i.vreg.id (some r) a.registers);
          } in
          let guarded : Guarded across b = record {
            pools = g.pools;
            placed = given-Crosses across a.locations i.vreg.id r large g.placed;
          } in
          let after = allocate-Guarded across j.vreg b guarded in
          rw taken (record { pools = after.pools; placed = after.placed })
    ]

spill-Guarded :
    (across : ℕ → Bool) (lighter : LiveInterval → LiveInterval → Bool) (i : LiveInterval) (k : ℕ)
    (o : Option LiveInterval) (a : Allocation)
    → i.live_across_call ≡ across i.vreg.id
    → Guarded across a
    → Guarded across (spill_against lighter i k o a)
unfolding spill_against
spill-Guarded across lighter i k none a same g = allocate-Guarded across i.vreg a g
spill-Guarded across lighter i k (some j) a same g = elim (Bool-cases (lighter j i)) [
  | inl less ↦ rw less (spill_over-Guarded across i j k (find a.locations j.vreg.id) a same g)
  | inr more ↦ rw more (allocate-Guarded across i.vreg a g)
]

place-Guarded :
    (across : ℕ → Bool) (lighter : LiveInterval → LiveInterval → Bool) (i : LiveInterval)
    (o : Option (ℕ × Pools)) (a : Allocation)
    → i.live_across_call ≡ across i.vreg.id
    → ((r : ℕ) (after : Pools) → o ≡ some (r, after) → HighChoice i.live_across_call r after)
    → Guarded across a
    → Guarded across (place lighter i o a)
unfolding place spill_at_interval assign
place-Guarded across lighter i none a same choice g =
    let k = least lighter a.active in
    spill-Guarded across lighter i k (get_elem? a.active k) a same g
place-Guarded across lighter i (some (r, after)) a same choice g =
    let (high, large) = choice r after refl in
    record {
      pools = high;
      placed = given-Crosses across a.locations i.vreg.id r (λ h. large (same ∙ h)) g.placed;
    }

scan_one-Guarded :
    (across : ℕ → Bool) (lighter : LiveInterval → LiveInterval → Bool) (i : LiveInterval)
    (a : Allocation)
    → i.live_across_call ≡ across i.vreg.id
    → Guarded across a
    → Guarded across (scan_one lighter i a)
unfolding scan_one
scan_one-Guarded across lighter i a same g =
    let b = expire_old_intervals i.start a in
    let guarded = expire-Guarded across i.start a.active a g in
    place-Guarded across lighter i _ b same
      (λ r after e.
        choose_register-High (in_xmm i.vreg) i.live_across_call
          (preferred_register i.vreg.operand b.registers) b.pools guarded.pools e)
      guarded

linear_scan-Guarded :
    (across : ℕ → Bool) (lighter : LiveInterval → LiveInterval → Bool) (is : List LiveInterval)
    (a : Allocation)
    → All (λ i. i.live_across_call ≡ across i.vreg.id) is
    → Guarded across a
    → Guarded across (linear_scan lighter is a)
unfolding linear_scan
linear_scan-Guarded across lighter [] a all g = g
linear_scan-Guarded across lighter (i ∷ is) a (same, all) g =
    linear_scan-Guarded across lighter is (scan_one lighter i a) all
      (scan_one-Guarded across lighter i a same g)

without_scratch-High : (scratch : ℕ) (xs : List ℕ) → High xs → High (without_scratch scratch xs)
without_scratch-High scratch [] high q small = refl
without_scratch-High scratch (x ∷ xs) high q small =
    let rest = without_scratch-High scratch xs (λ p s. omega (arith, high p s)) q small in
    ground (arith, high q small)

abbrev all_high : List ℕ → Bool
all_high [] = true
all_high (x ∷ xs) = leb 8 x && all_high xs

all_high-High : (xs : List ℕ) → all_high xs ≡ true → High xs
all_high-High [] h q small = refl
all_high-High (x ∷ xs) h q small =
    ground (arith, all_high-High xs (ground arith) q small, ==_iff x q)

initial-Guarded : (across : ℕ → Bool) (target : Option ℕ) → Guarded across (initial target)
initial-Guarded across target = record {
  pools = record {
    callee = all_high-High initial_callee refl;
    xmm = without_scratch-High (scratch_register target) all_xmm (all_high-High all_xmm refl);
  };
  placed = λ id r h e. absurd (cc);
}

-- A value that is live across a call, where it ends up in a register, has one with an index of 8 or
-- more: never one of the caller-saved general registers. (The flag of an interval is that of its value.)
pub run-callee_saved :
    (lighter : LiveInterval → LiveInterval → Bool) (target : Option ℕ) (across : ℕ → Bool)
    (intervals : List LiveInterval) (id r : ℕ)
    → All (λ i. i.live_across_call ≡ across i.vreg.id) intervals
    → across id ≡ true
    → find (run lighter target intervals).locations id ≡ some (physical_reg r)
    → 8 ≤ r
run-callee_saved lighter target across intervals id r all crosses e =
    (linear_scan-Guarded across lighter intervals (initial target) all
        (initial-Guarded across target)).placed
      id r crosses e
