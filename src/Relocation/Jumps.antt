-- ===== src/Relocation/Jumps.antt =====
-- The fields of the jump and branch words that `evaluate` writes, against decoders that follow the
-- instruction formats of the architectures.
use Prim.Native.Nat.{bit_and}
use fyra.Prelude.{ℕ, ◌+◌, ◌*◌, ◌/◌, ◌%◌, ◌^◌, ◌<◌, ◌≡◌, refl, ◌∙◌, arith, ◌==◌, if◌then◌else◌}
use fyra.Word.{low32, and_field, and_mask, and_cut, or_at, or_low_at, or_high_left, or_high_right}
use fyra.Relocation.Encode.{
  jal_immediate, patch_jal, branch_immediate, patch_branch, patch_call26, patch_condbr19,
}

-- RISC-V J-type: imm[20 | 10:1 | 11 | 19:12] in bits 31 to 12, the offset modulo 2 ^ 21.
abbrev pub jal_offset : ℕ → ℕ
jal_offset w =
    w / 2 ^ 31 % 2 * 2 ^ 20
    + w / 2 ^ 12 % 2 ^ 8 * 2 ^ 12
    + w / 2 ^ 20 % 2 * 2 ^ 11
    + w / 2 ^ 21 % 2 ^ 10 * 2

pub jal_immediate-fields :
    (imm : ℕ)
    → jal_immediate imm
      ≡ ((imm / 2 ^ 20 % 2 * 2 ^ 10 + imm / 2 % 2 ^ 10) * 2 + imm / 2 ^ 11 % 2) * 2 ^ 20
        + imm / 2 ^ 12 % 2 ^ 8 * 2 ^ 12
unfolding jal_immediate
jal_immediate-fields imm =
    let a = imm / 2 ^ 20 % 2 in
    let b = imm / 2 % 2 ^ 10 in
    let c = imm / 2 ^ 11 % 2 in
    or_at 20 ((a * 2 ^ 10 + b) * 2 + c) (imm / 2 ^ 12 % 2 ^ 8 * 2 ^ 12)
      (or_at 21 (a * 2 ^ 10 + b) (c * 2 ^ 20)
          (or_at 31 a (b * 2 ^ 21) (omega (arith, and_field 1 20 imm))
              (omega (arith, and_field 10 1 imm)) (omega arith)
            ∙ omega arith)
          (omega (arith, and_field 1 11 imm)) (omega arith)
        ∙ omega arith)
      (and_field 8 12 imm) (omega arith)

-- The word with `low` below and the four fields above it decodes to the fields.
jal_decodes :
    (a b c d low : ℕ)
    → a < 2
    → b < 2 ^ 10
    → c < 2
    → d < 2 ^ 8
    → low < 2 ^ 12
    → jal_offset ((((a * 2 ^ 10 + b) * 2 + c) * 2 ^ 8 + d) * 2 ^ 12 + low)
      ≡ a * 2 ^ 20 + d * 2 ^ 12 + c * 2 ^ 11 + b * 2
jal_decodes a b c d low ha hb hc hd hl = omega arith

even_parts :
    (imm : ℕ)
    → imm % 2 ≡ 0
    → imm / 2 ^ 20 % 2 * 2 ^ 20
        + imm / 2 ^ 12 % 2 ^ 8 * 2 ^ 12
        + imm / 2 ^ 11 % 2 * 2 ^ 11
        + imm / 2 % 2 ^ 10 * 2
      ≡ imm % 2 ^ 21
even_parts imm even = omega arith

patch_jal-sum :
    (insn imm : ℕ)
    → patch_jal insn imm
      ≡ (((imm / 2 ^ 20 % 2 * 2 ^ 10 + imm / 2 % 2 ^ 10) * 2 + imm / 2 ^ 11 % 2) * 2 ^ 8
            + imm / 2 ^ 12 % 2 ^ 8)
          * 2 ^ 12
        + (if insn % 128 == 0x6F then insn else 0xEF) % 2 ^ 12
unfolding patch_jal
patch_jal-sum insn imm =
    rw (and_mask 7 insn)
      (or_low_at 12 _ _ (jal_immediate-fields imm ∙ omega arith) (and_mask 12 _) (omega arith))

-- What a J-type relocation writes for an even offset: the offset's field, modulo 2 ^ 21, and below
-- it the register and the opcode of the JAL that stood there, or those of JAL with ra.
pub jal_offset-patch_jal :
    (insn imm : ℕ)
    → imm % 2 ≡ 0
    → (jal_offset (patch_jal insn imm) ≡ imm % 2 ^ 21)
      × (patch_jal insn imm % 2 ^ 12 ≡ (if insn % 128 == 0x6F then insn else 0xEF) % 2 ^ 12)
jal_offset-patch_jal insn imm even = rw (patch_jal-sum insn imm) (
  jal_decodes _ _ _ _ _ (omega arith) (omega arith) (omega arith) (omega arith) (omega arith)
      ∙ even_parts imm even,
  omega arith,
)

-- RISC-V B-type: imm[12 | 10:5] in bits 31 to 25 and imm[4:1 | 11] in bits 11 to 7.
abbrev pub branch_offset : ℕ → ℕ
branch_offset w =
    w / 2 ^ 31 % 2 * 2 ^ 12
    + w / 2 ^ 7 % 2 * 2 ^ 11
    + w / 2 ^ 25 % 2 ^ 6 * 2 ^ 5
    + w / 2 ^ 8 % 2 ^ 4 * 2

branch_immediate-fields :
    (imm : ℕ)
    → branch_immediate imm
      ≡ (imm / 2 ^ 12 % 2 * 2 ^ 6 + imm / 2 ^ 5 % 2 ^ 6) * 2 ^ 25
        + (imm / 2 % 2 ^ 4 * 2 + imm / 2 ^ 11 % 2) * 2 ^ 7
unfolding branch_immediate
branch_immediate-fields imm =
    let a = imm / 2 ^ 12 % 2 in
    let b = imm / 2 ^ 5 % 2 ^ 6 in
    let c = imm / 2 % 2 ^ 4 in
    or_at 8 ((a * 2 ^ 6 + b) * 2 ^ 17 + c) (imm / 2 ^ 11 % 2 * 2 ^ 7)
      (or_at 25 (a * 2 ^ 6 + b) (c * 2 ^ 8)
          (or_at 31 a (b * 2 ^ 25) (omega (arith, and_field 1 12 imm))
              (omega (arith, and_field 6 5 imm)) (omega arith)
            ∙ omega arith)
          (omega (arith, and_field 4 1 imm)) (omega arith)
        ∙ omega arith)
      (omega (arith, and_field 1 11 imm)) (omega arith)
    ∙ omega arith

-- The mask 0x01FFF07F keeps bits 24 to 12 and 6 to 0.
branch_kept : (insn : ℕ) → bit_and insn 0x01FFF07F ≡ insn / 2 ^ 12 % 2 ^ 13 * 2 ^ 12 + insn % 2 ^ 7
branch_kept insn =
    and_cut 7 insn 0x3FFE0 0x7F (omega arith)
    ∙ omega (arith, and_field 13 5 (insn / 2 ^ 7), and_mask 7 (insn % 2 ^ 7))

patch_branch-sum :
    (insn imm : ℕ)
    → patch_branch insn imm
      ≡ (imm / 2 ^ 12 % 2 * 2 ^ 6 + imm / 2 ^ 5 % 2 ^ 6) * 2 ^ 25
        + insn / 2 ^ 12 % 2 ^ 13 * 2 ^ 12
        + (imm / 2 % 2 ^ 4 * 2 + imm / 2 ^ 11 % 2) * 2 ^ 7
        + insn % 2 ^ 7
unfolding patch_branch
patch_branch-sum insn imm =
    let mid = insn / 2 ^ 12 % 2 ^ 13 in
    let lower = imm / 2 % 2 ^ 4 * 2 + imm / 2 ^ 11 % 2 in
    rw (branch_kept insn, branch_immediate-fields imm)
      (or_high_right 25 (mid * 2 ^ 12 + insn % 2 ^ 7) _ (lower * 2 ^ 7) (omega arith) (omega arith)
        ∙ omega (
          arith,
          or_high_left 12 mid (insn % 2 ^ 7) (lower * 2 ^ 7) (omega arith) (omega arith),
          or_low_at 7 lower (insn % 2 ^ 7) {x = lower * 2 ^ 7} {y = insn % 2 ^ 7} refl refl
              (omega arith),
        ))

branch_decodes :
    (a b c d mid low : ℕ)
    → a < 2
    → b < 2 ^ 6
    → c < 2 ^ 4
    → d < 2
    → mid < 2 ^ 13
    → low < 2 ^ 7
    → branch_offset ((a * 2 ^ 6 + b) * 2 ^ 25 + mid * 2 ^ 12 + (c * 2 + d) * 2 ^ 7 + low)
      ≡ a * 2 ^ 12 + d * 2 ^ 11 + b * 2 ^ 5 + c * 2
branch_decodes a b c d mid low ha hb hc hd hm hl = omega arith

even_branch_parts :
    (imm : ℕ)
    → imm % 2 ≡ 0
    → imm / 2 ^ 12 % 2 * 2 ^ 12
        + imm / 2 ^ 11 % 2 * 2 ^ 11
        + imm / 2 ^ 5 % 2 ^ 6 * 2 ^ 5
        + imm / 2 % 2 ^ 4 * 2
      ≡ imm % 2 ^ 13
even_branch_parts imm even = omega arith

-- What a B-type relocation writes for an even offset: the offset's field, modulo 2 ^ 13, with the
-- registers, the function code and the opcode of the instruction that stood there.
pub branch_offset-patch_branch :
    (insn imm : ℕ)
    → imm % 2 ≡ 0
    → (branch_offset (patch_branch insn imm) ≡ imm % 2 ^ 13)
      × (patch_branch insn imm % 2 ^ 7 ≡ insn % 2 ^ 7)
      × (patch_branch insn imm / 2 ^ 12 % 2 ^ 13 ≡ insn / 2 ^ 12 % 2 ^ 13)
branch_offset-patch_branch insn imm even = rw (patch_branch-sum insn imm) (
  branch_decodes _ _ _ _ _ _ (omega arith) (omega arith) (omega arith) (omega arith) (omega arith)
        (omega arith)
      ∙ even_branch_parts imm even,
  omega arith,
  omega arith,
)

patch_call26-sum :
    (insn delta : ℕ)
    → patch_call26 insn delta
      ≡ (if insn / 2 ^ 26 % 2 ^ 6 == 0 then 0x25 else insn / 2 ^ 26 % 2 ^ 6) * 2 ^ 26
        + delta % 2 ^ 26
unfolding patch_call26
patch_call26-sum insn delta = ground (
  arith,
  and_field 6 26 insn,
  or_at 26 (insn / 2 ^ 26 % 2 ^ 6) (low32 delta % 2 ^ 26) (and_field 6 26 insn)
      (and_mask 26 (low32 delta)) (omega arith),
  or_at 26 0x25 (low32 delta % 2 ^ 26) {x = 0x94000000} refl (and_mask 26 (low32 delta))
      (omega arith),
)

-- AArch64 B and BL: the word offset in bits 25 to 0, and above it the opcode that stood there, or that
-- of BL where it was zero.
pub patch_call26-fields :
    (insn delta : ℕ)
    → (patch_call26 insn delta % 2 ^ 26 ≡ delta % 2 ^ 26)
      × (patch_call26 insn delta / 2 ^ 26
          ≡ (if insn / 2 ^ 26 % 2 ^ 6 == 0 then 0x25 else insn / 2 ^ 26 % 2 ^ 6))
patch_call26-fields insn delta = rw (patch_call26-sum insn delta) (omega arith, omega arith)

-- The mask 0xFF00001F keeps bits 31 to 24 and 4 to 0.
condbr19_kept : (insn : ℕ) → bit_and insn 0xFF00001F ≡ insn / 2 ^ 24 % 2 ^ 8 * 2 ^ 24 + insn % 2 ^ 5
condbr19_kept insn =
    and_cut 5 insn 0x7F80000 0x1F (omega arith)
    ∙ omega (arith, and_field 8 19 (insn / 2 ^ 5), and_mask 5 (insn % 2 ^ 5))

patch_condbr19-sum :
    (insn delta : ℕ)
    → patch_condbr19 insn delta
      ≡ insn / 2 ^ 24 % 2 ^ 8 * 2 ^ 24 + delta % 2 ^ 19 * 2 ^ 5 + insn % 2 ^ 5
unfolding patch_condbr19
patch_condbr19-sum insn delta =
    let field = delta % 2 ^ 19 in
    let imm19 : bit_and (low32 delta) 0x7FFFF ≡ field = and_mask 19 (low32 delta) ∙ omega arith in
    rw (condbr19_kept insn, imm19)
      (or_high_left 24 (insn / 2 ^ 24 % 2 ^ 8) (insn % 2 ^ 5) (field * 2 ^ 5) (omega arith)
          (omega arith)
        ∙ omega (
          arith,
          or_low_at 5 field (insn % 2 ^ 5) {x = field * 2 ^ 5} {y = insn % 2 ^ 5} refl refl
              (omega arith),
        ))

-- AArch64 B.cond, CBZ and CBNZ, in a 32-bit word: the word offset in bits 23 to 5, and the opcode,
-- the condition and the register are kept.
pub patch_condbr19-fields :
    (insn delta : ℕ)
    → insn < 2 ^ 32
    → (patch_condbr19 insn delta / 2 ^ 5 % 2 ^ 19 ≡ delta % 2 ^ 19)
      × (patch_condbr19 insn delta % 2 ^ 5 ≡ insn % 2 ^ 5)
      × (patch_condbr19 insn delta / 2 ^ 24 ≡ insn / 2 ^ 24)
patch_condbr19-fields insn delta h = rw (patch_condbr19-sum insn delta) (omega arith)
