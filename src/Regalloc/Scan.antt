-- ===== src/Regalloc/Scan.antt =====
-- LinearScanAllocator: the scan itself, without its statistics. Spill weights are doubles; which of
-- two intervals weighs less is the parameter `lighter`.
use Prim.Native.Nat.{max}
use fyra.Prelude.{
  ℕ, zero, suc, ◌+◌, ◌-◌, ◌%◌, ◌^◌, Bool, false, not, ◌||◌, Option, none, some, List, [], ◌∷◌, ◌++◌,
  ◌==◌, leb, ltb, get_elem?, if◌then◌else◌,
}
use fyra.Prelude.Maps.{PointerMap, find, put}
use fyra.Regalloc.Interval.{
  TypeInfo, Instruction, LiveInterval, RegLocation, physical_reg, stack_slot,
}
use fyra.Regalloc.Pools.{Pools, initial_pools, free_register, choose_register}

-- The state of the scan. `registers` is what `setPhysicalRegister` has set, `none` for -1.
pub record Allocation : Type 0 where
  pub pools : Pools
  pub active : List LiveInterval
  pub locations : PointerMap RegLocation
  pub registers : PointerMap (Option ℕ)
  pub next_stack_slot : ℕ
  pub current_frame_bytes : ℕ
  pub free_stack_slots : List RegLocation

-- The location of an interval that has ended is given back.
unfoldable pub release : Option RegLocation → Allocation → Allocation
unfolding free_register
release none a = a
release (some (physical_reg r)) a = record a { pools = free_register r a.pools }
release (some (stack_slot index offset)) a = record a {
  free_stack_slots = a.free_stack_slots ++ (stack_slot index offset ∷ []);
}

-- The loop over the active intervals ends at the first that has not ended.
unfoldable pub expire : ℕ → List LiveInterval → Allocation → Allocation
unfolding release
expire point [] a = record a { active = [] }
expire point (i ∷ rest) a =
    let later = expire point rest (release (find a.locations i.vreg.id) a) in
    if ltb point i.end then record a { active = i ∷ rest } else later

abbrev pub expire_old_intervals : ℕ → Allocation → Allocation
expire_old_intervals point a = expire point a.active a

-- `std::sort` by the end point; it leaves the order of equal ones open, here they keep theirs.
abbrev pub insert_by_end : LiveInterval → List LiveInterval → List LiveInterval
insert_by_end i [] = i ∷ []
insert_by_end i (j ∷ js) = if ltb i.end j.end then i ∷ j ∷ js else j ∷ insert_by_end i js

unfoldable pub sort_by_end : List LiveInterval → List LiveInterval → List LiveInterval
sort_by_end sorted [] = sorted
sort_by_end sorted (i ∷ is) = sort_by_end (insert_by_end i sorted) is

-- `push_back` and `sort`
abbrev pub activate : LiveInterval → List LiveInterval → List LiveInterval
activate i active = sort_by_end [] (active ++ (i ∷ []))

abbrev pub slot_alignment : Option TypeInfo → ℕ
slot_alignment none = 8
slot_alignment (some type) = max 8 type.alignment

abbrev pub slot_size : Option TypeInfo → ℕ
slot_size none = 8
slot_size (some type) = max 8 type.size

abbrev pub padded : ℕ → ℕ → ℕ
padded bytes align =
    if bytes % align == 0 then bytes else (bytes + (align - bytes % align)) % 2 ^ 64

-- `vreg_to_location_map[vreg] = allocateStackSlot(vreg)`; the slots are `unsigned`, the frame a `size_t`.
unfoldable pub allocate_stack_slot : Instruction → Allocation → Allocation
allocate_stack_slot vreg a =
    let offset = padded a.current_frame_bytes (slot_alignment vreg.type) in
    record a {
      locations = put vreg.id (stack_slot a.next_stack_slot (offset % 2 ^ 32)) a.locations;
      next_stack_slot = suc a.next_stack_slot % 2 ^ 32;
      current_frame_bytes = (offset + slot_size vreg.type) % 2 ^ 64;
    }

-- A value gets a register, and its interval is active.
unfoldable pub assign : LiveInterval → ℕ → Allocation → Allocation
unfolding sort_by_end
assign i r a = record a {
  active = activate i a.active;
  locations = put i.vreg.id (physical_reg r) a.locations;
  registers = put i.vreg.id (some r) a.registers;
}

-- The position of the first interval that weighs least.
abbrev pub lightest :
    (LiveInterval → LiveInterval → Bool) → LiveInterval → ℕ → ℕ → List LiveInterval → ℕ
lightest lighter best best_index index [] = best_index
lightest lighter best best_index index (i ∷ is) =
    let take_it = lighter i best in
    lightest lighter (if take_it then i else best) (if take_it then index else best_index)
      (suc index) is

abbrev pub erase_at : ℕ → List LiveInterval → List LiveInterval
erase_at k [] = []
erase_at zero (i ∷ is) = is
erase_at (suc k) (i ∷ is) = i ∷ erase_at k is

-- The candidate's register goes to the current interval, and the candidate to the stack.
unfoldable pub take_over : LiveInterval → LiveInterval → ℕ → ℕ → Allocation → Allocation
unfolding allocate_stack_slot sort_by_end
take_over current candidate k r a =
    let b = record a {
      locations = put current.vreg.id (physical_reg r) a.locations;
      registers = put candidate.vreg.id none (put current.vreg.id (some r) a.registers);
    } in
    let c = allocate_stack_slot candidate.vreg b in
    record c { active = activate current (erase_at k c.active) }

unfoldable pub spill_over :
    LiveInterval → LiveInterval → ℕ → Option RegLocation → Allocation → Allocation
unfolding take_over
spill_over current candidate k (some (physical_reg r)) a =
    if not current.live_across_call || leb 8 r
    then take_over current candidate k r a
    else allocate_stack_slot current.vreg a
spill_over current candidate k (some (stack_slot index offset)) a =
    allocate_stack_slot current.vreg a
spill_over current candidate k none a = allocate_stack_slot current.vreg a

unfoldable pub spill_against :
    (LiveInterval → LiveInterval → Bool)
    → LiveInterval
    → ℕ
    → Option LiveInterval
    → Allocation
    → Allocation
unfolding spill_over
spill_against lighter current k none a = allocate_stack_slot current.vreg a
spill_against lighter current k (some candidate) a =
    if lighter candidate current
    then spill_over current candidate k (find a.locations candidate.vreg.id) a
    else allocate_stack_slot current.vreg a

abbrev pub least : (LiveInterval → LiveInterval → Bool) → List LiveInterval → ℕ
least lighter [] = 0
least lighter (i ∷ is) = lightest lighter i 0 1 is

unfoldable pub spill_at_interval :
    (LiveInterval → LiveInterval → Bool) → LiveInterval → Allocation → Allocation
unfolding spill_against
spill_at_interval lighter current a =
    let k = least lighter a.active in spill_against lighter current k (get_elem? a.active k) a

-- `isVector`
abbrev pub type_in_xmm : Option TypeInfo → Bool
type_in_xmm none = false
type_in_xmm (some type) = type.is_floating_point || type.is_vector

abbrev pub in_xmm : Instruction → Bool
in_xmm vreg = type_in_xmm vreg.type || vreg.has_vector_opcode

abbrev pub flatten : Option (Option ℕ) → Option ℕ
flatten none = none
flatten (some r) = r

-- The register of operand 0, where it has one.
abbrev pub preferred_register : Option ℕ → PointerMap (Option ℕ) → Option ℕ
preferred_register none registers = none
preferred_register (some id) registers = flatten (find registers id)

unfoldable pub place :
    (LiveInterval → LiveInterval → Bool)
    → LiveInterval
    → Option (ℕ × Pools)
    → Allocation
    → Allocation
unfolding assign spill_at_interval
place lighter i none a = spill_at_interval lighter i a
place lighter i (some (r, pools)) a = assign i r (record a { pools = pools })

unfoldable pub scan_one :
    (LiveInterval → LiveInterval → Bool) → LiveInterval → Allocation → Allocation
unfolding expire choose_register place
scan_one lighter i a =
    let b = expire_old_intervals i.start a in
    place lighter i
      (choose_register (in_xmm i.vreg) i.live_across_call
        (preferred_register i.vreg.operand b.registers) b.pools)
      b

unfoldable pub linear_scan :
    (LiveInterval → LiveInterval → Bool) → List LiveInterval → Allocation → Allocation
unfolding scan_one
linear_scan lighter [] a = a
linear_scan lighter (i ∷ is) a = linear_scan lighter is (scan_one lighter i a)

abbrev pub initial : Option ℕ → Allocation
initial target = record {
  pools = initial_pools target;
  active = [];
  locations = [];
  registers = [];
  next_stack_slot = 0;
  current_frame_bytes = 0;
  free_stack_slots = [];
}

abbrev pub run : (LiveInterval → LiveInterval → Bool) → Option ℕ → List LiveInterval → Allocation
run lighter target intervals = linear_scan lighter intervals (initial target)
