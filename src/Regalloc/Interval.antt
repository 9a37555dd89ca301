-- ===== src/Regalloc/Interval.antt =====
-- LiveInterval, PhysicalReg, StackSlot and RegLocation. A value is an instruction, named by a number, with the facts of it that the allocator asks for.
use fyra.Prelude.{ℕ, Bool, Option}

-- `getType()`, as far as `allocateStackSlot` and the choice of the register file ask.
pub record TypeInfo : Type 0 where
  pub alignment : ℕ
  pub size : ℕ
  pub is_floating_point : Bool
  pub is_vector : Bool

pub record Instruction : Type 0 where
  pub id : ℕ
  pub type : Option TypeInfo
  pub has_vector_opcode : Bool
  pub operand : Option ℕ

pub record LiveInterval : Type 0 where
  pub vreg : Instruction
  pub start : ℕ
  pub end : ℕ
  pub live_across_call : Bool

pub data RegLocation : Type 0 where
  physical_reg : ℕ → RegLocation
  stack_slot : ℕ → ℕ → RegLocation
