-- ===== src/Regalloc/Run.antt =====
-- The whole scan, from the pools that it starts with.
use fyra.Prelude.{
  ℕ, ◌≤◌, ◌≡◌, refl, arith, ◌⊎◌, inl, inr, Bool, true, false, not, ◌&&◌, Option, List, [], ◌∷◌,
  ◌++◌, ◌==◌, ==_iff, All, Bool-cases,
}
use fyra.Prelude.Maps.{PointerMap}
use fyra.Regalloc.Interval.{LiveInterval, RegLocation}
use fyra.Regalloc.Pools.{
  has, initial_caller, initial_callee, all_xmm, without_scratch, scratch_register, initial_pools,
}
use fyra.Regalloc.Scan.{Allocation, scan_one, linear_scan, initial, run}
use fyra.Regalloc.Counts.{count, count-append, total, Contains}
use fyra.Regalloc.Sound.{Located, ApartFrom, Apart, Fresh, Sound}
use fyra.Regalloc.Disjoint.{scan_one-Sound}

abbrev distinct : List ℕ → Bool
distinct [] = true
distinct (x ∷ xs) = not (has x xs) && distinct xs

count-missing : (r : ℕ) (xs : List ℕ) → has r xs ≡ false → count r xs ≡ 0
count-missing r [] h = refl
count-missing r (x ∷ xs) h = ground (arith, count-missing r xs, ==_iff x r)

count-distinct : (r : ℕ) (xs : List ℕ) → distinct xs ≡ true → count r xs ≤ 1
count-distinct r [] h = omega arith
count-distinct r (x ∷ xs) h = elim (Bool-cases (x == r)) [
  | inl same ↦
      let own : x ≡ r = (==_iff x r).0 same in
      let missing : has r xs ≡ false = rw (← own) (ground arith) in
      rw same (omega (arith, count-missing r xs missing))
  | inr other ↦ rw other (omega (arith, count-distinct r xs (ground arith)))
]

count-without_scratch :
    (r scratch : ℕ) (xs : List ℕ) → count r (without_scratch scratch xs) ≤ count r xs
count-without_scratch r scratch [] = omega arith
count-without_scratch r scratch (x ∷ xs) = ground (arith, count-without_scratch r scratch xs)

every_register : (r : ℕ) → count r (initial_caller ++ (initial_callee ++ all_xmm)) ≤ 1
every_register r = count-distinct r (initial_caller ++ (initial_callee ++ all_xmm)) refl

total-initial_pools : (r : ℕ) (target : Option ℕ) → total r (initial_pools target) ≤ 1
total-initial_pools r target = omega (
  arith,
  every_register r,
  count-append r initial_caller (initial_callee ++ all_xmm),
  count-append r initial_callee all_xmm,
  count-without_scratch r (scratch_register target) all_xmm,
)

initial-Sound : (target : Option ℕ) → Sound [] 0 (initial target)
initial-Sound target = record {
  once = λ r. omega (arith, total-initial_pools r target);
  known = λ i h. h;
  settled = λ i r m h. absurd m;
  apart = tt;
}

-- The intervals are in the order of their start points, and each has a value of its own.
abbrev pub StartsFrom : ℕ → List LiveInterval → Type 0
StartsFrom point [] = Unit
StartsFrom point (i ∷ is) = (point ≤ i.start) × StartsFrom i.start is

abbrev pub DistinctValues : List LiveInterval → Type 0
DistinctValues [] = Unit
DistinctValues (i ∷ is) = All (λ j. (i.vreg.id == j.vreg.id) ≡ false) is × DistinctValues is

-- The first interval stands before the second.
abbrev pub Earlier : LiveInterval → LiveInterval → List LiveInterval → Type 0
Earlier i j [] = ⊥
Earlier i j (x ∷ xs) = ((i ≡ x) × Contains j xs) ⊎ Earlier i j xs

-- The intervals in the reverse order, as the invariant has them.
abbrev met_after : List LiveInterval → List LiveInterval → List LiveInterval
met_after met [] = met
met_after met (i ∷ is) = met_after (i ∷ met) is

kept_order :
    (i j : LiveInterval) (met is : List LiveInterval)
    → Earlier j i met
    → Earlier j i (met_after met is)
kept_order i j met [] h = h
kept_order i j met (x ∷ is) h = kept_order i j (x ∷ met) is (inr h)

later_order :
    (i j : LiveInterval) (met is : List LiveInterval)
    → Contains i met
    → Contains j is
    → Earlier j i (met_after met is)
later_order i j met [] m h = absurd h
later_order i j met (x ∷ is) m (inl e) = kept_order i j (x ∷ met) is (inl (e, m))
later_order i j met (x ∷ is) m (inr h) = later_order i j (x ∷ met) is (inr m) h

reversed_order :
    (i j : LiveInterval) (met is : List LiveInterval)
    → Earlier i j is
    → Earlier j i (met_after met is)
reversed_order i j met [] h = absurd h
reversed_order i j met (x ∷ is) (inl (e, m)) = later_order i j (x ∷ met) is (inl e) m
reversed_order i j met (x ∷ is) (inr h) = reversed_order i j (x ∷ met) is h

ApartFrom-Contains :
    (locations : PointerMap RegLocation) (i j : LiveInterval) (js : List LiveInterval) (r : ℕ)
    → ApartFrom locations i js
    → Contains j js
    → Located locations j r
    → Located locations i r
    → j.end ≤ i.start
ApartFrom-Contains locations i j [] r a h f g = absurd h
ApartFrom-Contains locations i j (x ∷ js) r (here, rest) (inl e) f g =
    let f' : Located locations x r = rw (← e) f in rw e (here r f' g)
ApartFrom-Contains locations i j (x ∷ js) r (here, rest) (inr h) f g =
    ApartFrom-Contains locations i j js r rest h f g

Apart-Earlier :
    (locations : PointerMap RegLocation) (i j : LiveInterval) (js : List LiveInterval) (r : ℕ)
    → Apart locations js
    → Earlier i j js
    → Located locations j r
    → Located locations i r
    → j.end ≤ i.start
Apart-Earlier locations i j [] r a h f g = absurd h
Apart-Earlier locations i j (x ∷ js) r (here, rest) (inl (e, m)) f g =
    let g' : Located locations x r = rw (← e) g in
    rw e (ApartFrom-Contains locations x j js r here m f g')
Apart-Earlier locations i j (x ∷ js) r (here, rest) (inr h) f g =
    Apart-Earlier locations i j js r rest h f g

abbrev NewTo : List LiveInterval → List LiveInterval → Type 0
NewTo met = All (λ i. Fresh i met)

NewTo-met :
    (i : LiveInterval) (met is : List LiveInterval)
    → All (λ j. (i.vreg.id == j.vreg.id) ≡ false) is
    → NewTo met is
    → NewTo (i ∷ met) is
NewTo-met i met [] d n = tt
NewTo-met i met (j ∷ is) (here, rest) (fresh, later) = (
  λ k m. elim m [
    | inl e ↦ rw e (ground (arith, ==_iff i.vreg.id j.vreg.id, ==_iff j.vreg.id i.vreg.id))
    | inr old ↦ fresh k old
  ],
  NewTo-met i met is rest later,
)

NewTo-none : (is : List LiveInterval) → NewTo [] is
NewTo-none [] = tt
NewTo-none (i ∷ is) = (λ j m. absurd m, NewTo-none is)

linear_scan-Apart :
    (lighter : LiveInterval → LiveInterval → Bool) (met is : List LiveInterval) (point : ℕ)
    (a : Allocation)
    → StartsFrom point is
    → DistinctValues is
    → NewTo met is
    → Sound met point a
    → Apart (linear_scan lighter is a).locations (met_after met is)
unfolding linear_scan
linear_scan-Apart lighter met [] point a starts distinct fresh s = s.apart
linear_scan-Apart lighter met (i ∷ is) point a (le, starts) (d, distinct) (fresh, later) s =
    linear_scan-Apart lighter (i ∷ met) is i.start (scan_one lighter i a) starts distinct
      (NewTo-met i met is d later) (scan_one-Sound lighter met point i a le fresh s)

-- Of two intervals whose values end up in one register, the later starts where the earlier has ended
-- or after, where the intervals come in the order of their start points and each has its own value.
pub run-Located :
    (lighter : LiveInterval → LiveInterval → Bool) (target : Option ℕ)
    (intervals : List LiveInterval) (i j : LiveInterval) (r : ℕ)
    → StartsFrom 0 intervals
    → DistinctValues intervals
    → Earlier i j intervals
    → Located (run lighter target intervals).locations i r
    → Located (run lighter target intervals).locations j r
    → i.end ≤ j.start
run-Located lighter target intervals i j r starts distinct earlier f g =
    Apart-Earlier (run lighter target intervals).locations j i (met_after [] intervals) r
      (linear_scan-Apart lighter [] intervals 0 (initial target) starts distinct
        (NewTo-none intervals) (initial-Sound target))
      (reversed_order i j [] intervals earlier) f g
