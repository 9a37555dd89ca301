-- ===== src/Tests/Relocations.antt =====
-- Relocations of small sections.
use fyra.Prelude.{
  ℕ, ◌+◌, ◌*◌, ◌/◌, ◌%◌, ◌^◌, ◌≡◌, ◌≢◌, ◌==◌, if◌then◌else◌, refl, arith, inl, inr, List, [], ◌∷◌,
  some,
}
use fyra.Word.{add64}
use fyra.Bytes.{le_bytes, of_le, read_bytes, write_bytes}
use fyra.Target.{x64, aarch64, riscv64}
use fyra.Relocation.{
  absolute, pc_relative, call_relative, branch_relative, patched, failed, undefined, pc_overflow,
  EvalError, evaluate, load_insn, delta_of, page_delta_of, patch_jal, patch_adrp,
  patch_add_immediate,
}
use fyra.Relocation.Jumps.{jal_offset, branch_offset}
use fyra.Relocation.Pages.{pair_address, pair_address-across_page}
use fyra.Relocation.Writes.{AgreeOutside, width, evaluate-AgreeOutside}
use fyra.Relocation.Values.{Within, extend32, extend28, extend21, extend13}
use fyra.Relocation.Results.{
  evaluate_absolute, evaluate_pc_relative, evaluate_call_riscv64, evaluate_call_aarch64,
  evaluate_branch_riscv64, evaluate_jump_unchecked, evaluate_out_of_bounds, evaluate_wrapped_offset,
}
use fyra.Linker.Entry.{start_bytes}
use fyra.Linker.Entry.Stub.{start_bytes_x64, start_bytes_riscv64}

-- two RISC-V words, the first a JAL with ra
abbrev code : List ℕ
code = 0xEF ∷ 0 ∷ 0 ∷ 0 ∷ 0x63 ∷ 0 ∷ 0 ∷ 0 ∷ []

abbrev patched_code : List ℕ
patched_code = 0xEF ∷ 0 ∷ 0 ∷ 1 ∷ 0x63 ∷ 0 ∷ 0 ∷ 0 ∷ []

code_patched : evaluate call_relative 0x1010 0x1000 0 code 0 riscv64 ≡ patched patched_code
unfolding evaluate read_bytes write_bytes le_bytes of_le patch_jal
code_patched = refl

evaluate-AgreeOutside_example : AgreeOutside code patched_code 0 (width call_relative)
evaluate-AgreeOutside_example =
    evaluate-AgreeOutside call_relative 0x1010 0x1000 0 code 0 riscv64 {bytes' = patched_code}
      code_patched

evaluate_absolute_example :
    (bytes' : List ℕ) × (evaluate absolute 0x401000 0 8 code 0 x64 ≡ patched bytes')
    × (read_bytes bytes' 0 8 ≡ some (le_bytes 8 ((0x401000 + 8) % 2 ^ 64)))
evaluate_absolute_example = evaluate_absolute 0x401000 0 8 code 0 x64 (omega arith) (omega arith)

evaluate_pc_relative_example :
    (Within (2 ^ 31) (delta_of 0x401000 0x400100 0)
      → (bytes' : List ℕ) × (evaluate pc_relative 0x401000 0x400100 0 code 4 x64 ≡ patched bytes')
        × ((w : ℕ) × (load_insn bytes' 4 ≡ some w)
            × (add64 0x400100 (extend32 w) ≡ add64 0x401000 0)))
    × (¬ Within (2 ^ 31) (delta_of 0x401000 0x400100 0)
        → evaluate pc_relative 0x401000 0x400100 0 code 4 x64
          ≡ failed (pc_overflow (delta_of 0x401000 0x400100 0)))
evaluate_pc_relative_example =
    evaluate_pc_relative 0x401000 0x400100 0 code 4 x64 (omega arith) refl (omega arith)
      (omega arith)

evaluate_call_riscv64_example :
    (bytes' : List ℕ) × (evaluate call_relative 0x1010 0x1000 0 code 0 riscv64 ≡ patched bytes')
    × ((insn : ℕ) × (load_insn code 0 ≡ some insn)
        × ((w : ℕ) × (load_insn bytes' 0 ≡ some w)
            × (w % 2 ^ 7 ≡ 0x6F)
            × (w / 2 ^ 7 % 2 ^ 5 ≡ (if insn % 2 ^ 7 == 0x6F then insn / 2 ^ 7 % 2 ^ 5 else 1))
            × (add64 0x1000 (extend21 (jal_offset w)) ≡ add64 0x1010 0)))
evaluate_call_riscv64_example =
    evaluate_call_riscv64 0x1010 0x1000 0 code 0 (omega arith) refl (inl (omega arith))
      (omega arith) (omega arith)

evaluate_call_aarch64_example :
    (bytes' : List ℕ) × (evaluate call_relative 0x1000 0x2000 0 code 4 aarch64 ≡ patched bytes')
    × ((insn : ℕ) × (load_insn code 4 ≡ some insn)
        × ((w : ℕ) × (load_insn bytes' 4 ≡ some w)
            × (w / 2 ^ 26 ≡ (if insn / 2 ^ 26 % 2 ^ 6 == 0 then 0x25 else insn / 2 ^ 26 % 2 ^ 6))
            × (add64 0x2000 (extend28 (w % 2 ^ 26 * 4)) ≡ add64 0x1000 0)))
evaluate_call_aarch64_example =
    evaluate_call_aarch64 0x1000 0x2000 0 code 4 (omega arith) refl (inr (omega arith))
      (omega arith) (omega arith)

evaluate_branch_riscv64_example :
    (bytes' : List ℕ) × (evaluate branch_relative 0x1010 0x1004 0 code 4 riscv64 ≡ patched bytes')
    × ((insn : ℕ) × (load_insn code 4 ≡ some insn)
        × ((w : ℕ) × (load_insn bytes' 4 ≡ some w)
            × (w % 2 ^ 7 ≡ insn % 2 ^ 7)
            × (w / 2 ^ 12 % 2 ^ 13 ≡ insn / 2 ^ 12 % 2 ^ 13)
            × (add64 0x1004 (extend13 (branch_offset w)) ≡ add64 0x1010 0)))
evaluate_branch_riscv64_example =
    evaluate_branch_riscv64 0x1010 0x1004 0 code 4 (omega arith) refl (inl (omega arith))
      (omega arith) (omega arith)

-- 2 MiB away, which a JAL does not reach
evaluate_jump_unchecked_example :
    ((bytes' : List ℕ) × (evaluate call_relative 0x201000 0x1000 0 code 0 riscv64 ≡ patched bytes'))
    × ((bytes' : List ℕ) × (evaluate branch_relative 0x201000 0x1000 0 code 0 riscv64
          ≡ patched bytes'))
evaluate_jump_unchecked_example =
    evaluate_jump_unchecked 0x201000 0x1000 0 code 0 riscv64 (omega arith) (omega arith)

evaluate_out_of_bounds_example :
    (e : EvalError) × (evaluate absolute 0x1000 0 0 code 1 x64 ≡ failed e) × (e ≢ undefined)
evaluate_out_of_bounds_example =
    evaluate_out_of_bounds absolute 0x1000 0 0 code 1 x64 (omega arith) (omega arith)

evaluate_wrapped_offset_example :
    evaluate call_relative 0x1000 0 0 code 0xFFFFFFFFFFFFFFFE x64 ≡ failed undefined
evaluate_wrapped_offset_example =
    evaluate_wrapped_offset 0x1000 0 0 code 0xFFFFFFFFFFFFFFFE (omega arith) (omega arith)
      (omega arith) (omega arith)

pair_address-across_page_example :
    pair_address 0x400100
        (patch_adrp 0x90000010 (page_delta_of 0x402FF8 0x400100 8))
        (patch_add_immediate 0x91000210 (add64 0x402FF8 8))
      + 2 ^ 12
    ≡ 0x402FF8 + 8
pair_address-across_page_example =
    pair_address-across_page 0x402FF8 0x400100 8 0x90000010 0x91000210 (omega arith) (omega arith)
      (omega arith) (omega arith)

start_bytes_x64_example :
    (w : ℕ) × (load_insn (start_bytes x64 0x401000 0x401100) 16 ≡ some w)
    × (add64 (add64 0x401100 20) (extend32 w) ≡ 0x401000)
start_bytes_x64_example = start_bytes_x64 0x401000 0x401100 (omega arith) (inr (omega arith))

start_bytes_riscv64_example :
    (w : ℕ) × (load_insn (start_bytes riscv64 0x401000 0x401100) 12 ≡ some w)
    × (w % 2 ^ 7 ≡ 0x6F)
    × (w / 2 ^ 7 % 2 ^ 5 ≡ 0)
    × (add64 (add64 0x401100 12) (extend21 (jal_offset w)) ≡ 0x401000)
start_bytes_riscv64_example =
    start_bytes_riscv64 0x401000 0x401100 (omega arith) refl (inr (omega arith))
