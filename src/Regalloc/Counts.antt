-- ===== src/Regalloc/Counts.antt =====
-- How often a register stands in the pools and in the locations of active intervals: every step moves
-- registers, and makes up none.
use fyra.Prelude.{
  ℕ, zero, suc, ◌+◌, ◌≤◌, ◌≡◌, refl, arith, ◌⊎◌, inl, inr, Bool, true, false, Option, none, some,
  List, [], ◌∷◌, ◌++◌, ◌==◌, ==_iff, Bool-cases, get_elem?, if◌then◌else◌,
}
use fyra.Prelude.Maps.{PointerMap, find}
use fyra.Regalloc.Interval.{LiveInterval, RegLocation, physical_reg, stack_slot}
use fyra.Regalloc.Pools.{
  Pools, has, erase, under, pop_back, take_register, free_register, choose_register, from_xmm,
  from_callee, from_caller, is_none,
}
use fyra.Regalloc.Scan.{insert_by_end, sort_by_end, activate, erase_at}

-- 1 for the register itself
abbrev pub one : ℕ → ℕ → ℕ
one q r = if q == r then 1 else 0

abbrev pub count : ℕ → List ℕ → ℕ
count r [] = 0
count r (x ∷ xs) = one x r + count r xs

pub count-append : (r : ℕ) (xs ys : List ℕ) → count r (xs ++ ys) ≡ count r xs + count r ys
count-append r [] ys = omega arith
count-append r (x ∷ xs) ys = omega (arith, count-append r xs ys)

count-erase :
    (q r : ℕ) (xs : List ℕ) → has q xs ≡ true → count r xs ≡ count r (erase q xs) + one q r
count-erase q r [] h = absurd (cc)
count-erase q r (x ∷ xs) h = ground (arith, count-erase q r xs, ==_iff x q, ==_iff x r, ==_iff q r)

count-under :
    (r x n : ℕ) (o : Option (ℕ × List ℕ))
    → ((q : ℕ) (rest : List ℕ) → o ≡ some (q, rest) → n ≡ count r rest + one q r)
    → {q : ℕ} {rest : List ℕ} → under x o ≡ some (q, rest)
    → one x r + n ≡ count r rest + one q r
count-under r x n none f h = absurd (cc)
count-under r x n (some (q', rest')) f {q} {rest} h =
    let same : q' ≡ q = cc in
    let shape : x ∷ rest' ≡ rest = cc in rw (← same, ← shape) (omega (arith, f q' rest' refl))

count-pop_back :
    (r : ℕ) (xs : List ℕ) {q : ℕ} {rest : List ℕ}
    → pop_back xs ≡ some (q, rest)
    → count r xs ≡ count r rest + one q r
count-pop_back r [] h = absurd (cc)
count-pop_back r (x ∷ []) h = ground arith
count-pop_back r (x ∷ y ∷ ys) {q} {rest} h =
    count-under r x (count r (y ∷ ys)) (pop_back (y ∷ ys)) (λ q rest e. count-pop_back r (y ∷ ys) e)
      h

pub count-take_register :
    (preferred : Option ℕ) (r : ℕ) (xs : List ℕ) {q : ℕ} {rest : List ℕ}
    → take_register preferred xs ≡ some (q, rest)
    → count r xs ≡ count r rest + one q r
count-take_register none r xs h = count-pop_back r xs h
count-take_register (some p) r xs {q} {rest} h = elim (Bool-cases (has p xs)) [
  | inr missing ↦ count-pop_back r xs (rw missing at h)
  | inl present ↦
      let f : some (p, erase p xs) ≡ some (q, rest) = rw present at h in
      let same : p ≡ q = cc in
      let left : erase p xs ≡ rest = cc in rw (← same, ← left) (count-erase p r xs present)
]

abbrev pub total : ℕ → Pools → ℕ
total r pools = count r pools.caller + count r pools.callee + count r pools.xmm

pub total-free_register :
    (r q : ℕ) (pools : Pools) → total r (free_register q pools) ≡ total r pools + one q r
unfolding free_register
total-free_register r q pools = ground (
  arith,
  count-append r pools.caller (q ∷ []),
  count-append r pools.callee (q ∷ []),
  count-append r pools.xmm (q ∷ []),
)

total-from_xmm :
    (preferred : Option ℕ) (r : ℕ) (pools : Pools) (o : Option (ℕ × List ℕ)) {q : ℕ}
    {pools' : Pools}
    → take_register preferred pools.xmm ≡ o
    → from_xmm pools o ≡ some (q, pools')
    → total r pools ≡ total r pools' + one q r
total-from_xmm preferred r pools none e h = absurd (cc)
total-from_xmm preferred r pools (some (q', rest)) {q} {pools'} e h =
    let same : q' ≡ q = cc in
    let left : record pools { xmm = rest } ≡ pools' = cc in
    rw (← same, ← left) (omega (arith, count-take_register preferred r pools.xmm e))

total-from_callee :
    (preferred : Option ℕ) (r : ℕ) (pools : Pools) (o : Option (ℕ × List ℕ)) {q : ℕ}
    {pools' : Pools}
    → take_register preferred pools.callee ≡ o
    → from_callee pools o ≡ some (q, pools')
    → total r pools ≡ total r pools' + one q r
total-from_callee preferred r pools none e h = absurd (cc)
total-from_callee preferred r pools (some (q', rest)) {q} {pools'} e h =
    let same : q' ≡ q = cc in
    let left : record pools { callee = rest } ≡ pools' = cc in
    rw (← same, ← left) (omega (arith, count-take_register preferred r pools.callee e))

total-from_caller :
    (preferred : Option ℕ) (r : ℕ) (pools : Pools) (o : Option (ℕ × List ℕ)) {q : ℕ}
    {pools' : Pools}
    → take_register preferred pools.caller ≡ o
    → from_caller pools o ≡ some (q, pools')
    → total r pools ≡ total r pools' + one q r
total-from_caller preferred r pools none e h = absurd (cc)
total-from_caller preferred r pools (some (q', rest)) {q} {pools'} e h =
    let same : q' ≡ q = cc in
    let left : record pools { caller = rest } ≡ pools' = cc in
    rw (← same, ← left) (omega (arith, count-take_register preferred r pools.caller e))

pub total-choose_register :
    (is_vector across : Bool) (preferred : Option ℕ) (r : ℕ) (pools : Pools) {q : ℕ}
    {pools' : Pools}
    → choose_register is_vector across preferred pools ≡ some (q, pools')
    → total r pools ≡ total r pools' + one q r
unfolding choose_register
total-choose_register true across preferred r pools h = total-from_xmm preferred r pools _ refl h
total-choose_register false true preferred r pools h = total-from_callee preferred r pools _ refl h
total-choose_register false false preferred r pools {q} {pools'} h =
    elim (Bool-cases (has 0 pools.caller)) [
      | inl scratch ↦
          let f : some (0, record pools { caller = erase 0 pools.caller }) ≡ some (q, pools') =
            rw scratch at h in
          let same : 0 ≡ q = cc in
          let left : record pools { caller = erase 0 pools.caller } ≡ pools' = cc in
          rw (← same, ← left) (omega (arith, count-erase 0 r pools.caller scratch))
      | inr taken ↦
          elim (Bool-cases (is_none (from_callee pools (take_register preferred pools.callee)))) [
            | inl none_left ↦
                total-from_caller preferred r pools _ refl (rw (taken, none_left) at h)
            | inr some_left ↦
                total-from_callee preferred r pools _ refl (rw (taken, some_left) at h)
          ]
    ]

-- How often active intervals hold a register.
abbrev pub holds : ℕ → Option RegLocation → ℕ
holds r none = 0
holds r (some (physical_reg q)) = one q r
holds r (some (stack_slot index offset)) = 0

abbrev pub held : ℕ → PointerMap RegLocation → List LiveInterval → ℕ
held r locations [] = 0
held r locations (i ∷ is) = holds r (find locations i.vreg.id) + held r locations is

-- The interval is in the list.
abbrev pub Contains : LiveInterval → List LiveInterval → Type 0
Contains i [] = ⊥
Contains i (j ∷ js) = (i ≡ j) ⊎ Contains i js

held-insert_by_end :
    (r : ℕ) (locations : PointerMap RegLocation) (i : LiveInterval) (js : List LiveInterval)
    → held r locations (insert_by_end i js)
      ≡ holds r (find locations i.vreg.id) + held r locations js
held-insert_by_end r locations i [] = refl
held-insert_by_end r locations i (j ∷ js) = ground (arith, held-insert_by_end r locations i js)

held-append :
    (r : ℕ) (locations : PointerMap RegLocation) (is js : List LiveInterval)
    → held r locations (is ++ js) ≡ held r locations is + held r locations js
held-append r locations [] js = omega arith
held-append r locations (i ∷ is) js = omega (arith, held-append r locations is js)

held-sort_by_end :
    (r : ℕ) (locations : PointerMap RegLocation) (sorted is : List LiveInterval)
    → held r locations (sort_by_end sorted is) ≡ held r locations sorted + held r locations is
unfolding sort_by_end
held-sort_by_end r locations sorted [] = omega arith
held-sort_by_end r locations sorted (i ∷ is) = omega (
  arith,
  held-sort_by_end r locations (insert_by_end i sorted) is,
  held-insert_by_end r locations i sorted,
)

pub held-activate :
    (r : ℕ) (locations : PointerMap RegLocation) (i : LiveInterval) (js : List LiveInterval)
    → held r locations (activate i js) ≡ holds r (find locations i.vreg.id) + held r locations js
held-activate r locations i js =
    omega
      (arith, held-sort_by_end r locations [] (js ++ (i ∷ [])), held-append r locations js (i ∷ []))

pub held-erase_at :
    (r : ℕ) (locations : PointerMap RegLocation) (k : ℕ) (js : List LiveInterval) {i : LiveInterval}
    → get_elem? js k ≡ some i
    → held r locations js ≡ holds r (find locations i.vreg.id) + held r locations (erase_at k js)
held-erase_at r locations k [] e = absurd (cc)
held-erase_at r locations zero (j ∷ js) {i} e = let same : j ≡ i = cc in rw same refl
held-erase_at r locations (suc k) (j ∷ js) e = omega (arith, held-erase_at r locations k js e)

-- An interval in the list holds its register.
pub held-Contains :
    (r : ℕ) (locations : PointerMap RegLocation) (i : LiveInterval) (js : List LiveInterval)
    → Contains i js
    → find locations i.vreg.id ≡ some (physical_reg r)
    → 1 ≤ held r locations js
held-Contains r locations i [] h e = absurd h
held-Contains r locations i (j ∷ js) (inl same) e =
    let here : find locations j.vreg.id ≡ some (physical_reg r) = rw (← same) e in
    let own : (r == r) ≡ true = (==_iff r r).1 refl in rw (here, own) (omega arith)
held-Contains r locations i (j ∷ js) (inr later) e =
    omega (arith, held-Contains r locations i js later e)
