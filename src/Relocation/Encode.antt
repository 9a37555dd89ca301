-- ===== src/Relocation/Encode.antt =====
-- The instruction words that `evaluate` builds. Each takes the word that stands in the section and
-- the value of the field, a 64-bit or 32-bit pattern, and returns the new word.
use Prim.Native.Nat.{bit_and, bit_or}
use fyra.Prelude.{ℕ, ◌*◌, ◌/◌, ◌%◌, ◌^◌, ◌==◌, Bool, ◌||◌, if◌then◌else◌}
use fyra.Word.{low32, sar64}

-- AArch64: is the word an ADRP, or an ADD (immediate)?
abbrev pub is_adrp : ℕ → Bool
is_adrp insn = bit_and insn 0x9F000000 == 0x90000000

abbrev pub is_add_immediate : ℕ → Bool
is_add_immediate insn =
    (bit_and insn 0xFF800000 == 0x91000000) || (bit_and insn 0xFF800000 == 0x11000000)

-- `page_delta` is an int64_t that was shifted down by 12; casts to uint32_t keep the low bits.
unfoldable pub patch_adrp : ℕ → ℕ → ℕ
patch_adrp insn page_delta =
    let immlo = bit_and page_delta 0x3 * 2 ^ 29 in
    let immhi = bit_and (sar64 page_delta 2) 0x7FFFF * 2 ^ 5 in
    bit_or (bit_or (bit_and insn 0x9F00001F) immlo) immhi

unfoldable pub patch_add_immediate : ℕ → ℕ → ℕ
patch_add_immediate insn address =
    bit_or (bit_and insn 0xFFC003FF) (bit_and (low32 address) 0xFFF * 2 ^ 10)

unfoldable pub patch_call26 : ℕ → ℕ → ℕ
patch_call26 insn word_delta =
    let imm26 = bit_and (low32 word_delta) 0x03FFFFFF in
    let opcode = if bit_and insn 0xFC000000 == 0 then 0x94000000 else insn in
    bit_or (bit_and opcode 0xFC000000) imm26

-- The scattered immediate of a RISC-V J-type word; `<< 11` in uint32_t drops nothing here.
unfoldable pub jal_immediate : ℕ → ℕ
jal_immediate imm =
    bit_or
      (bit_or
        (bit_or (bit_and imm 0x100000 * 2 ^ 11 % 2 ^ 32) (bit_and imm 0x7FE * 2 ^ 20 % 2 ^ 32))
        (bit_and imm 0x800 * 2 ^ 9 % 2 ^ 32))
      (bit_and imm 0xFF000)

unfoldable pub patch_jal : ℕ → ℕ → ℕ
unfolding jal_immediate
patch_jal insn imm =
    let opcode = if bit_and insn 0x7F == 0x6F then insn else 0x000000EF in
    bit_or (bit_and opcode 0x00000FFF) (jal_immediate imm)

unfoldable pub patch_condbr19 : ℕ → ℕ → ℕ
patch_condbr19 insn word_delta =
    let imm19 = bit_and (low32 word_delta) 0x7FFFF in
    bit_or (bit_and insn 0xFF00001F) (imm19 * 2 ^ 5)

-- The scattered immediate of a RISC-V B-type word.
unfoldable pub branch_immediate : ℕ → ℕ
branch_immediate imm =
    bit_or
      (bit_or (bit_or (bit_and imm 0x1000 * 2 ^ 19 % 2 ^ 32) (bit_and imm 0x7E0 * 2 ^ 20 % 2 ^ 32))
        (bit_and imm 0x1E * 2 ^ 7 % 2 ^ 32))
      (bit_and imm 0x800 / 2 ^ 4)

unfoldable pub patch_branch : ℕ → ℕ → ℕ
unfolding branch_immediate
patch_branch insn imm = bit_or (bit_and insn 0x01FFF07F) (branch_immediate imm)
