-- ===== src/Relocation/Results.antt =====
-- What a relocation computes, and which requests fail.
use fyra.Prelude.{
  ℕ, ◌+◌, ◌*◌, ◌/◌, ◌%◌, ◌^◌, ◌==◌, if◌then◌else◌, ◌≤◌, ◌<◌, ◌≡◌, ◌≢◌, refl, arith, true, false,
  some, List, length,
}
use fyra.Word.{add64, low32, div4, fits_int32}
use fyra.Bytes.{le_bytes, read_bytes, write_bytes, length-le_bytes}
use fyra.Target.{Arch, x64, aarch64, riscv64, same_arch}
use fyra.Relocation.Kind.{
  RelocationKind, absolute, pc_relative, call_relative, branch_relative, unknown,
}
use fyra.Relocation.Encode.{patch_call26, patch_jal, patch_condbr19, patch_branch}
use fyra.Relocation.Evaluate.{
  EvalError, patched, failed, undefined, pc_overflow, pc_out_of_bounds, absolute_out_of_bounds,
  call_out_of_bounds, branch_out_of_bounds, unsupported_kind, store, load_insn, outside, delta_of,
  store_pc32, evaluate_pc, evaluate_call, evaluate_branch, evaluate,
}
use fyra.Relocation.Jumps.{jal_offset, branch_offset}
use fyra.Relocation.Writes.{width, store_defined, patch_insn_defined}
use fyra.Relocation.Values.{
  extend32, extend28, extend21, extend13, Within, absolute_value, pc_relative_value,
  call_riscv64_value, call_aarch64_value, branch_riscv64_value,
}

evaluate_call_defined :
    (delta : ℕ) (bytes : List ℕ) (offset : ℕ) (arch : Arch)
    → offset + 4 ≤ length bytes
    → (bytes' : List ℕ) × (evaluate_call delta bytes offset arch ≡ patched bytes')
unfolding evaluate_call
evaluate_call_defined delta bytes offset aarch64 room =
    patch_insn_defined bytes offset (λ insn. patch_call26 insn (div4 delta)) room
evaluate_call_defined delta bytes offset riscv64 room =
    patch_insn_defined bytes offset (λ insn. patch_jal insn (low32 delta)) room
evaluate_call_defined delta bytes offset _ room = store_defined bytes offset 4 (low32 delta) room

evaluate_branch_defined :
    (delta : ℕ) (bytes : List ℕ) (offset : ℕ) (arch : Arch)
    → offset + 4 ≤ length bytes
    → (bytes' : List ℕ) × (evaluate_branch delta bytes offset arch ≡ patched bytes')
unfolding evaluate_branch
evaluate_branch_defined delta bytes offset aarch64 room =
    patch_insn_defined bytes offset (λ insn. patch_condbr19 insn (div4 delta)) room
evaluate_branch_defined delta bytes offset riscv64 room =
    patch_insn_defined bytes offset (λ insn. patch_branch insn (low32 delta)) room
evaluate_branch_defined delta bytes offset _ room = store_defined bytes offset 4 (low32 delta) room

inside :
    (bytes : List ℕ) (offset : ℕ)
    → length bytes < 2 ^ 64
    → offset + 4 ≤ length bytes
    → outside bytes offset 4 ≡ false
inside bytes offset small room = ground arith

-- A call or branch relocation with room for its word never fails, however far the target is: no
-- range is checked.
pub evaluate_jump_unchecked :
    (symbol place addend : ℕ) (bytes : List ℕ) (offset : ℕ) (arch : Arch)
    → length bytes < 2 ^ 64
    → offset + 4 ≤ length bytes
    → ((bytes' : List ℕ) × (evaluate call_relative symbol place addend bytes offset arch
          ≡ patched bytes'))
      × ((bytes' : List ℕ) × (evaluate branch_relative symbol place addend bytes offset arch
            ≡ patched bytes'))
unfolding evaluate
evaluate_jump_unchecked symbol place addend bytes offset arch small room =
    let d = delta_of symbol place addend in
    let (b, call) = evaluate_call_defined d bytes offset arch room in
    let (c, branch) = evaluate_branch_defined d bytes offset arch room in
    let within = inside bytes offset small room in ((b, rw within call), (c, rw within branch))

fits_near : (d : ℕ) → Within (2 ^ 31) d → fits_int32 d ≡ true
fits_near d near = ground arith

fits_far : (d : ℕ) → ¬ Within (2 ^ 31) d → fits_int32 d ≡ false
fits_far d far = ground arith

-- An absolute relocation with room for its eight bytes leaves S + A there.
pub evaluate_absolute :
    (symbol place addend : ℕ) (bytes : List ℕ) (offset : ℕ) (arch : Arch)
    → length bytes < 2 ^ 64
    → offset + 8 ≤ length bytes
    → (bytes' : List ℕ) × (evaluate absolute symbol place addend bytes offset arch ≡ patched bytes')
      × (read_bytes bytes' offset 8 ≡ some (le_bytes 8 ((symbol + addend) % 2 ^ 64)))
unfolding evaluate
evaluate_absolute symbol place addend bytes offset arch small room =
    let (b, e) = store_defined bytes offset 8 (add64 symbol addend) room in
    let within : outside bytes offset 8 ≡ false = ground arith in
    let r : evaluate absolute symbol place addend bytes offset arch ≡ patched b = rw within e in
    (b, r, absolute_value symbol place addend bytes offset arch r)

-- Off AArch64, a PC-relative relocation with room for its four bytes leaves there a displacement that,
-- sign extended and added to the place, gives S + A, where the distance fits 32 bits; where it does
-- not, the relocation fails with an overflow.
pub evaluate_pc_relative :
    (symbol place addend : ℕ) (bytes : List ℕ) (offset : ℕ) (arch : Arch)
    → place < 2 ^ 64
    → same_arch arch aarch64 ≡ false
    → length bytes < 2 ^ 64
    → offset + 4 ≤ length bytes
    → (Within (2 ^ 31) (delta_of symbol place addend)
        → (bytes' : List ℕ) × (evaluate pc_relative symbol place addend bytes offset arch
            ≡ patched bytes')
          × ((w : ℕ) × (load_insn bytes' offset ≡ some w)
              × (add64 place (extend32 w) ≡ add64 symbol addend)))
      × (¬ Within (2 ^ 31) (delta_of symbol place addend)
          → evaluate pc_relative symbol place addend bytes offset arch
            ≡ failed (pc_overflow (delta_of symbol place addend)))
unfolding evaluate evaluate_pc store_pc32
evaluate_pc_relative symbol place addend bytes offset arch hp other small room =
    let d = delta_of symbol place addend in
    let within = inside bytes offset small room in
    (
      λ near.
          let (b, e) = store_defined bytes offset 4 (low32 d) room in
          let fits : fits_int32 d ≡ true = fits_near d near in
          let r : evaluate pc_relative symbol place addend bytes offset arch ≡ patched b =
            rw (within, other, fits) e in
          (b, r, pc_relative_value symbol place addend bytes offset arch hp other r),
      λ far. let over : fits_int32 d ≡ false = fits_far d far in rw (within, other, over) refl,
    )

-- On RISC-V a call relocation with room for its word leaves a word with the opcode of JAL, whatever
-- stood there, with the link register of a JAL that stood there and ra otherwise, whose offset reaches
-- S + A, where that is an even distance within one MiB.
pub evaluate_call_riscv64 :
    (symbol place addend : ℕ) (bytes : List ℕ) (offset : ℕ)
    → place < 2 ^ 64
    → delta_of symbol place addend % 2 ≡ 0
    → Within (2 ^ 20) (delta_of symbol place addend)
    → length bytes < 2 ^ 64
    → offset + 4 ≤ length bytes
    → (bytes' : List ℕ) × (evaluate call_relative symbol place addend bytes offset riscv64
        ≡ patched bytes')
      × ((insn : ℕ) × (load_insn bytes offset ≡ some insn)
          × ((w : ℕ) × (load_insn bytes' offset ≡ some w)
              × (w % 2 ^ 7 ≡ 0x6F)
              × (w / 2 ^ 7 % 2 ^ 5 ≡ (if insn % 2 ^ 7 == 0x6F then insn / 2 ^ 7 % 2 ^ 5 else 1))
              × (add64 place (extend21 (jal_offset w)) ≡ add64 symbol addend)))
evaluate_call_riscv64 symbol place addend bytes offset hp even within small room =
    let (b, e) = (evaluate_jump_unchecked symbol place addend bytes offset riscv64 small room).0 in
    (b, e, call_riscv64_value symbol place addend bytes offset hp even within e)

-- On AArch64 a call relocation with room for its word keeps the opcode in bits 31 to 26 of the word
-- that stood there, or puts that of BL where those bits were zero; and below it leaves an offset that,
-- read as B and BL read it, reaches S + A, where that is a multiple of four bytes within 128 MiB.
pub evaluate_call_aarch64 :
    (symbol place addend : ℕ) (bytes : List ℕ) (offset : ℕ)
    → place < 2 ^ 64
    → delta_of symbol place addend % 4 ≡ 0
    → Within (2 ^ 27) (delta_of symbol place addend)
    → length bytes < 2 ^ 64
    → offset + 4 ≤ length bytes
    → (bytes' : List ℕ) × (evaluate call_relative symbol place addend bytes offset aarch64
        ≡ patched bytes')
      × ((insn : ℕ) × (load_insn bytes offset ≡ some insn)
          × ((w : ℕ) × (load_insn bytes' offset ≡ some w)
              × (w / 2 ^ 26 ≡ (if insn / 2 ^ 26 % 2 ^ 6 == 0 then 0x25 else insn / 2 ^ 26 % 2 ^ 6))
              × (add64 place (extend28 (w % 2 ^ 26 * 4)) ≡ add64 symbol addend)))
evaluate_call_aarch64 symbol place addend bytes offset hp aligned within small room =
    let (b, e) = (evaluate_jump_unchecked symbol place addend bytes offset aarch64 small room).0 in
    (b, e, call_aarch64_value symbol place addend bytes offset hp aligned within e)

-- On RISC-V a branch relocation with room for its word keeps the opcode, the function code and the two
-- source registers of the word that stood there, and leaves an offset that, read as a conditional
-- branch reads it, reaches S + A, where that is an even distance within four KiB.
pub evaluate_branch_riscv64 :
    (symbol place addend : ℕ) (bytes : List ℕ) (offset : ℕ)
    → place < 2 ^ 64
    → delta_of symbol place addend % 2 ≡ 0
    → Within (2 ^ 12) (delta_of symbol place addend)
    → length bytes < 2 ^ 64
    → offset + 4 ≤ length bytes
    → (bytes' : List ℕ) × (evaluate branch_relative symbol place addend bytes offset riscv64
        ≡ patched bytes')
      × ((insn : ℕ) × (load_insn bytes offset ≡ some insn)
          × ((w : ℕ) × (load_insn bytes' offset ≡ some w)
              × (w % 2 ^ 7 ≡ insn % 2 ^ 7)
              × (w / 2 ^ 12 % 2 ^ 13 ≡ insn / 2 ^ 12 % 2 ^ 13)
              × (add64 place (extend13 (branch_offset w)) ≡ add64 symbol addend)))
evaluate_branch_riscv64 symbol place addend bytes offset hp even within small room =
    let (b, e) = (evaluate_jump_unchecked symbol place addend bytes offset riscv64 small room).1 in
    (b, e, branch_riscv64_value symbol place addend bytes offset hp even within e)

-- Where the field ends behind the section, and the sum does not wrap, the relocation is refused
-- with an error, and no word is stored outside the section.
pub evaluate_out_of_bounds :
    (kind : RelocationKind) (symbol place addend : ℕ) (bytes : List ℕ) (offset : ℕ) (arch : Arch)
    → offset + width kind < 2 ^ 64
    → length bytes < offset + width kind
    → (e : EvalError) × (evaluate kind symbol place addend bytes offset arch ≡ failed e)
      × (e ≢ undefined)
unfolding evaluate
evaluate_out_of_bounds pc_relative symbol place addend bytes offset arch small out =
    (pc_out_of_bounds, ground arith, λ e. cc)
evaluate_out_of_bounds absolute symbol place addend bytes offset arch small out =
    (absolute_out_of_bounds, ground arith, λ e. cc)
evaluate_out_of_bounds call_relative symbol place addend bytes offset arch small out =
    (call_out_of_bounds, ground arith, λ e. cc)
evaluate_out_of_bounds branch_relative symbol place addend bytes offset arch small out =
    (branch_out_of_bounds, ground arith, λ e. cc)
evaluate_out_of_bounds unknown symbol place addend bytes offset arch small out =
    (unsupported_kind, refl, λ e. cc)

-- For a call relocation on x64, a 64-bit offset whose sum with 4 wraps passes the check where the
-- section has three bytes or more, and the word is stored outside the section.
pub evaluate_wrapped_offset :
    (symbol place addend : ℕ) (bytes : List ℕ) (offset : ℕ)
    → 2 ^ 64 ≤ offset + 4
    → offset < 2 ^ 64
    → 3 ≤ length bytes
    → length bytes < 2 ^ 63
    → evaluate call_relative symbol place addend bytes offset x64 ≡ failed undefined
unfolding evaluate evaluate_call store write_bytes
evaluate_wrapped_offset symbol place addend bytes offset wraps word some_bytes small =
    ground (arith, length-le_bytes 4 (low32 (delta_of symbol place addend)))
