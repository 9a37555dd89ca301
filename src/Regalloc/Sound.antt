-- ===== src/Regalloc/Sound.antt =====
-- What holds between the intervals that the scan has met, and how it depends on the locations.
use fyra.Prelude.{
  ℕ, ◌+◌, ◌≤◌, ◌≡◌, refl, arith, ◌⊎◌, inl, inr, false, some, List, [], ◌∷◌, ◌==◌, Bool-cases,
}
use fyra.Prelude.Maps.{PointerMap, find, put}
use fyra.Regalloc.Interval.{LiveInterval, RegLocation, physical_reg, stack_slot}
use fyra.Regalloc.Scan.{Allocation}
use fyra.Regalloc.Counts.{total, held, Contains}

-- The interval's value was given the register.
abbrev pub Located : PointerMap RegLocation → LiveInterval → ℕ → Type 0
Located locations i r = find locations i.vreg.id ≡ some (physical_reg r)

-- The later interval starts where the earlier ones of its register have ended.
abbrev pub ApartFrom : PointerMap RegLocation → LiveInterval → List LiveInterval → Type 0
ApartFrom locations i [] = Unit
ApartFrom locations i (j ∷ js) =
    ((r : ℕ) → Located locations j r → Located locations i r → j.end ≤ i.start)
    × ApartFrom locations i js

-- The last interval that was met stands first.
abbrev pub Apart : PointerMap RegLocation → List LiveInterval → Type 0
Apart locations [] = Unit
Apart locations (i ∷ is) = ApartFrom locations i is × Apart locations is

abbrev pub Fresh : LiveInterval → List LiveInterval → Type 0
Fresh i js = (j : LiveInterval) → Contains j js → (i.vreg.id == j.vreg.id) ≡ false

-- After the intervals `met`, at a point of the program.
pub record Sound (met : List LiveInterval) (point : ℕ) (a : Allocation) : Type 0 where
  pub once : (r : ℕ) → total r a.pools + held r a.locations a.active ≤ 1
  pub known : (i : LiveInterval) → Contains i a.active → Contains i met
  pub settled :
      (i : LiveInterval) (r : ℕ)
      → Contains i met
      → Located a.locations i r
      → Contains i a.active ⊎ (i.end ≤ point)
  pub apart : Apart a.locations met

-- Where the new map gives no interval a register that the old one did not give it.
abbrev pub Narrows : PointerMap RegLocation → PointerMap RegLocation → List LiveInterval → Type 0
Narrows locations locations' js =
    (j : LiveInterval) (r : ℕ) → Contains j js → Located locations' j r → Located locations j r

pub ApartFrom-narrow :
    (locations locations' : PointerMap RegLocation) (i : LiveInterval) (js : List LiveInterval)
    → ((r : ℕ) → Located locations' i r → Located locations i r)
    → Narrows locations locations' js
    → ApartFrom locations i js
    → ApartFrom locations' i js
ApartFrom-narrow locations locations' i [] own narrows a = tt
ApartFrom-narrow locations locations' i (j ∷ js) own narrows (here, rest) = (
  λ r f g. here r (narrows j r (inl refl) f) (own r g),
  ApartFrom-narrow locations locations' i js own (λ k r m. narrows k r (inr m)) rest,
)

pub Apart-narrow :
    (locations locations' : PointerMap RegLocation) (js : List LiveInterval)
    → Narrows locations locations' js
    → Apart locations js
    → Apart locations' js
Apart-narrow locations locations' [] narrows a = tt
Apart-narrow locations locations' (j ∷ js) narrows (here, rest) =
    let later : Narrows locations locations' js = λ k r m. narrows k r (inr m) in
    (
      ApartFrom-narrow locations locations' j js (λ r. narrows j r (inl refl)) later here,
      Apart-narrow locations locations' js later rest,
    )

pub ApartFrom-all :
    (locations : PointerMap RegLocation) (i : LiveInterval) (js : List LiveInterval)
    → ((j : LiveInterval) (r : ℕ)
        → Contains j js
        → Located locations j r
        → Located locations i r
        → j.end ≤ i.start)
    → ApartFrom locations i js
ApartFrom-all locations i [] f = tt
ApartFrom-all locations i (j ∷ js) f =
    (λ r. f j r (inl refl), ApartFrom-all locations i js (λ k r m. f k r (inr m)))

pub held-same :
    (r : ℕ) (locations locations' : PointerMap RegLocation) (js : List LiveInterval)
    → ((j : LiveInterval) → Contains j js → find locations' j.vreg.id ≡ find locations j.vreg.id)
    → held r locations' js ≡ held r locations js
held-same r locations locations' [] same = refl
held-same r locations locations' (j ∷ js) same =
    rw (same j (inl refl), held-same r locations locations' js (λ k m. same k (inr m))) refl

-- A location on the stack takes registers away only.
pub held-put_slot :
    (r : ℕ) (locations : PointerMap RegLocation) (id index offset : ℕ) (js : List LiveInterval)
    → held r (put id (stack_slot index offset) locations) js ≤ held r locations js
held-put_slot r locations id index offset [] = omega arith
held-put_slot r locations id index offset (j ∷ js) = elim (Bool-cases (id == j.vreg.id)) [
  | inl same ↦ rw same (omega (arith, held-put_slot r locations id index offset js))
  | inr other ↦ rw other (omega (arith, held-put_slot r locations id index offset js))
]
