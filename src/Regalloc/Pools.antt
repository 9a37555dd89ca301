-- ===== src/Regalloc/Pools.antt =====
-- The vectors of free registers, and the choice of one. A vector stands in its order, so its back is
-- the last element.
use fyra.Prelude.{
  ℕ, Bool, true, false, not, ◌&&◌, ◌||◌, Option, none, some, List, [], ◌∷◌, ◌++◌, ◌==◌, leb,
  if◌then◌else◌,
}

-- `free_caller_regs`, `free_callee_regs` and `free_xmm_regs`, by register index
pub record Pools : Type 0 where
  pub caller : List ℕ
  pub callee : List ℕ
  pub xmm : List ℕ

abbrev pub has : ℕ → List ℕ → Bool
has r [] = false
has r (x ∷ xs) = x == r || has r xs

-- `erase(find_if(...))`
abbrev pub erase : ℕ → List ℕ → List ℕ
erase r [] = []
erase r (x ∷ xs) = if x == r then xs else x ∷ erase r xs

-- `back()` and `pop_back()`
abbrev pub under : ℕ → Option (ℕ × List ℕ) → Option (ℕ × List ℕ)
under x none = none
under x (some (r, rest)) = some (r, x ∷ rest)

abbrev pub pop_back : List ℕ → Option (ℕ × List ℕ)
pop_back [] = none
pop_back (x ∷ []) = some (x, [])
pop_back (x ∷ y ∷ ys) = under x (pop_back (y ∷ ys))

-- The preferred register where it is free, else the last one.
abbrev pub take_register : Option ℕ → List ℕ → Option (ℕ × List ℕ)
take_register none free = pop_back free
take_register (some preferred) free =
    if has preferred free then some (preferred, erase preferred free) else pop_back free

abbrev pub initial_caller : List ℕ
initial_caller = 4 ∷ 5 ∷ 7 ∷ 6 ∷ 3 ∷ 2 ∷ 0 ∷ []

abbrev pub initial_callee : List ℕ
initial_callee = 12 ∷ 11 ∷ 10 ∷ 9 ∷ 8 ∷ []

abbrev pub all_xmm : List ℕ
all_xmm =
    115 ∷ 114 ∷ 113 ∷ 112 ∷ 111 ∷ 110 ∷ 109 ∷ 108 ∷ 107 ∷ 106 ∷ 105 ∷ 104 ∷ 103 ∷ 102 ∷ 101 ∷ 100
    ∷ []

-- The scratch register is left out; 0 means that there is none.
abbrev pub without_scratch : ℕ → List ℕ → List ℕ
without_scratch scratch [] = []
without_scratch scratch (r ∷ rs) =
    let rest = without_scratch scratch rs in
    if not (scratch == 0) && r == scratch then rest else r ∷ rest

-- `getReservedScratchVectorRegIndex` of the target, where there is one
abbrev pub scratch_register : Option ℕ → ℕ
scratch_register none = 115
scratch_register (some index) = index

abbrev pub initial_pools : Option ℕ → Pools
initial_pools target = record {
  caller = initial_caller;
  callee = initial_callee;
  xmm = without_scratch (scratch_register target) all_xmm;
}

-- A register goes back to the vector of its kind.
unfoldable pub free_register : ℕ → Pools → Pools
free_register r pools =
    if leb 100 r && leb r 115
    then record pools { xmm = pools.xmm ++ (r ∷ []) }
    else if leb 8 r
    then record pools { callee = pools.callee ++ (r ∷ []) }
    else record pools { caller = pools.caller ++ (r ∷ []) }

abbrev pub from_xmm : Pools → Option (ℕ × List ℕ) → Option (ℕ × Pools)
from_xmm pools none = none
from_xmm pools (some (r, rest)) = some (r, record pools { xmm = rest })

abbrev pub from_callee : Pools → Option (ℕ × List ℕ) → Option (ℕ × Pools)
from_callee pools none = none
from_callee pools (some (r, rest)) = some (r, record pools { callee = rest })

abbrev pub from_caller : Pools → Option (ℕ × List ℕ) → Option (ℕ × Pools)
from_caller pools none = none
from_caller pools (some (r, rest)) = some (r, record pools { caller = rest })

abbrev pub is_none : Option (ℕ × Pools) → Bool
is_none none = true
is_none (some _) = false

-- Registers for a value that no call crosses: index 0, a callee-saved one, a caller-saved one.
abbrev pub choose_scratch : Option ℕ → Pools → Option (ℕ × Pools)
choose_scratch preferred pools =
    let callee = from_callee pools (take_register preferred pools.callee) in
    let caller = from_caller pools (take_register preferred pools.caller) in
    if has 0 pools.caller
    then some (0, record pools { caller = erase 0 pools.caller })
    else if is_none callee
    then caller
    else callee

unfoldable pub choose_register : Bool → Bool → Option ℕ → Pools → Option (ℕ × Pools)
choose_register is_vector across_call preferred pools =
    if is_vector
    then from_xmm pools (take_register preferred pools.xmm)
    else if across_call
    then from_callee pools (take_register preferred pools.callee)
    else choose_scratch preferred pools
