-- ===== src/Relocation/Values.antt =====
-- The value that stands in the section after a relocation has succeeded, read back the way the
-- processor reads it.
use fyra.Prelude.{
  ℕ, ◌+◌, ◌-◌, ◌*◌, ◌/◌, ◌%◌, ◌^◌, ◌==◌, ◌≤◌, ◌<◌, ◌≡◌, refl, arith, true, false, some, List, ltb,
  ◌⊎◌, inl, inr, Bool-cases, if◌then◌else◌,
}
use fyra.Word.{add64, low32, div4, fits_int32}
use fyra.Bytes.{le_bytes, read_bytes}
use fyra.Target.{Arch, aarch64, riscv64, same_arch}
use fyra.Relocation.Kind.{absolute, pc_relative, call_relative, branch_relative}
use fyra.Relocation.Encode.{patch_call26, patch_jal, patch_branch}
use fyra.Relocation.Evaluate.{
  patched, failed, pc_overflow, store, load_insn, patch_insn, delta_of, store_pc32, evaluate_pc,
  evaluate_call, evaluate_branch, evaluate,
}
use fyra.Relocation.Jumps.{
  jal_offset, jal_offset-patch_jal, branch_offset, branch_offset-patch_branch, patch_call26-fields,
}
use fyra.Relocation.Writes.{store-AgreeOutside, load_store, patch_insn-AgreeOutside}

-- Sign extension to 64 bits of a field of 32, 28, 21 and 13 bits.
abbrev pub extend32 : ℕ → ℕ
extend32 x = if ltb x (2 ^ 31) then x else x + 2 ^ 64 - 2 ^ 32

abbrev pub extend28 : ℕ → ℕ
extend28 x = if ltb x (2 ^ 27) then x else x + 2 ^ 64 - 2 ^ 28

abbrev pub extend21 : ℕ → ℕ
extend21 x = if ltb x (2 ^ 20) then x else x + 2 ^ 64 - 2 ^ 21

abbrev pub extend13 : ℕ → ℕ
extend13 x = if ltb x (2 ^ 12) then x else x + 2 ^ 64 - 2 ^ 13

-- The int64_t `d` lies in [-bound, bound).
abbrev pub Within : ℕ → ℕ → Type 0
Within bound d = (d < bound) ⊎ (2 ^ 64 ≤ d + bound)

-- An absolute relocation leaves S + A in the eight bytes at its offset.
pub absolute_value :
    (symbol place addend : ℕ) (bytes : List ℕ) (offset : ℕ) (arch : Arch) {bytes' : List ℕ}
    → evaluate absolute symbol place addend bytes offset arch ≡ patched bytes'
    → read_bytes bytes' offset 8 ≡ some (le_bytes 8 ((symbol + addend) % 2 ^ 64))
unfolding evaluate
absolute_value symbol place addend bytes offset arch {bytes'} h = ground (
  arith,
  λ (e : store bytes offset 8 (add64 symbol addend) ≡ patched bytes').
      (store-AgreeOutside bytes offset 8 (add64 symbol addend) e).1,
)

pc32_value :
    (symbol place addend : ℕ)
    → place < 2 ^ 64
    → fits_int32 (delta_of symbol place addend) ≡ true
    → add64 place (extend32 (low32 (delta_of symbol place addend) % 2 ^ 32)) ≡ add64 symbol addend
pc32_value symbol place addend hp fits = ground arith

store_pc32_value :
    (symbol place addend : ℕ) (bytes : List ℕ) (offset : ℕ) {bytes' : List ℕ}
    → place < 2 ^ 64
    → store_pc32 bytes offset (delta_of symbol place addend) ≡ patched bytes'
    → (w : ℕ) × (load_insn bytes' offset ≡ some w)
      × (add64 place (extend32 w) ≡ add64 symbol addend)
unfolding store_pc32
store_pc32_value symbol place addend bytes offset {bytes'} hp h =
    let d = delta_of symbol place addend in
    elim (Bool-cases (fits_int32 d)) [
      | inl fits ↦ (
        low32 d % 2 ^ 32,
        load_store bytes offset (low32 d) (rw fits at h),
        pc32_value symbol place addend hp fits,
      )
      | inr over ↦ absurd (let f : failed (pc_overflow d) ≡ patched bytes' = rw over at h in cc)
    ]

-- Off AArch64 a PC-relative relocation leaves a 32-bit displacement that, sign extended and added to
-- the place, gives S + A.
pub pc_relative_value :
    (symbol place addend : ℕ) (bytes : List ℕ) (offset : ℕ) (arch : Arch) {bytes' : List ℕ}
    → place < 2 ^ 64
    → same_arch arch aarch64 ≡ false
    → evaluate pc_relative symbol place addend bytes offset arch ≡ patched bytes'
    → (w : ℕ) × (load_insn bytes' offset ≡ some w)
      × (add64 place (extend32 w) ≡ add64 symbol addend)
unfolding evaluate evaluate_pc
pc_relative_value symbol place addend bytes offset arch {bytes'} hp other h =
    store_pc32_value symbol place addend bytes offset hp (ground arith)

-- The word that stood there, the word that a patch leaves, and a fact about the two that survives the
-- cut to 32 bits.
patched_word :
    (P : ℕ → ℕ → Type 0) (bytes : List ℕ) (offset : ℕ) (change : ℕ → ℕ) {bytes' : List ℕ}
    → ((insn : ℕ) → P insn (change insn % 2 ^ 32))
    → patch_insn bytes offset change ≡ patched bytes'
    → (insn : ℕ) × (load_insn bytes offset ≡ some insn)
      × ((w : ℕ) × (load_insn bytes' offset ≡ some w) × P insn w)
patched_word P bytes offset change keep h =
    let (insn, e, frame, load) =
      patch_insn-AgreeOutside bytes offset change (load_insn bytes offset) refl h in
    (insn, e, (change insn % 2 ^ 32, load, keep insn))

jal_opcode : (insn imm : ℕ) → imm % 2 ≡ 0 → patch_jal insn imm % 2 ^ 32 % 2 ^ 7 ≡ 0x6F
jal_opcode insn imm even = ground (arith, (jal_offset-patch_jal insn imm even).1)

-- The link register of a JAL that stood there, or ra.
jal_link :
    (insn imm : ℕ)
    → imm % 2 ≡ 0
    → patch_jal insn imm % 2 ^ 32 / 2 ^ 7 % 2 ^ 5
      ≡ (if insn % 2 ^ 7 == 0x6F then insn / 2 ^ 7 % 2 ^ 5 else 1)
jal_link insn imm even = ground (arith, (jal_offset-patch_jal insn imm even).1)

jal_reaches :
    (symbol place addend insn : ℕ)
    → place < 2 ^ 64
    → delta_of symbol place addend % 2 ≡ 0
    → Within (2 ^ 20) (delta_of symbol place addend)
    → add64 place
        (extend21 (jal_offset (patch_jal insn (low32 (delta_of symbol place addend)) % 2 ^ 32)))
      ≡ add64 symbol addend
jal_reaches symbol place addend insn hp even within =
    rw
      (
        cut_word (patch_jal insn (low32 (delta_of symbol place addend))),
        (jal_offset-patch_jal insn (low32 (delta_of symbol place addend)) (omega arith)).0,
      )
      (ground arith)
  where
    cut_word : (x : ℕ) → jal_offset (x % 2 ^ 32) ≡ jal_offset x
    cut_word x = omega arith

-- On RISC-V a call relocation leaves a JAL with the link register of the JAL that stood there, or ra,
-- that reaches S + A, where that is an even distance within one MiB.
pub call_riscv64_value :
    (symbol place addend : ℕ) (bytes : List ℕ) (offset : ℕ) {bytes' : List ℕ}
    → place < 2 ^ 64
    → delta_of symbol place addend % 2 ≡ 0
    → Within (2 ^ 20) (delta_of symbol place addend)
    → evaluate call_relative symbol place addend bytes offset riscv64 ≡ patched bytes'
    → (insn : ℕ) × (load_insn bytes offset ≡ some insn)
      × ((w : ℕ) × (load_insn bytes' offset ≡ some w)
          × (w % 2 ^ 7 ≡ 0x6F)
          × (w / 2 ^ 7 % 2 ^ 5 ≡ (if insn % 2 ^ 7 == 0x6F then insn / 2 ^ 7 % 2 ^ 5 else 1))
          × (add64 place (extend21 (jal_offset w)) ≡ add64 symbol addend))
unfolding evaluate evaluate_call
call_riscv64_value symbol place addend bytes offset {bytes'} hp even within h =
    let (insn, e, (w, load, (opcode, link, reaches))) =
      patched_word
        (λ insn w.
          (w % 2 ^ 7 ≡ 0x6F)
          × (w / 2 ^ 7 % 2 ^ 5 ≡ (if insn % 2 ^ 7 == 0x6F then insn / 2 ^ 7 % 2 ^ 5 else 1))
          × (add64 place (extend21 (jal_offset w)) ≡ add64 symbol addend))
        bytes offset (λ insn. patch_jal insn (low32 (delta_of symbol place addend)))
        (λ insn. (
          jal_opcode insn (low32 (delta_of symbol place addend)) (omega arith),
          jal_link insn (low32 (delta_of symbol place addend)) (omega arith),
          jal_reaches symbol place addend insn hp even within,
        ))
        (ground arith) in
    (insn, e, (w, load, opcode, link, reaches))

bl_reaches :
    (symbol place addend insn : ℕ)
    → place < 2 ^ 64
    → delta_of symbol place addend % 4 ≡ 0
    → Within (2 ^ 27) (delta_of symbol place addend)
    → add64 place
        (extend28 (patch_call26 insn (div4 (delta_of symbol place addend)) % 2 ^ 32 % 2 ^ 26 * 4))
      ≡ add64 symbol addend
bl_reaches symbol place addend insn hp aligned within =
    rw
      (
        cut_word (patch_call26 insn (div4 (delta_of symbol place addend))),
        (patch_call26-fields insn (div4 (delta_of symbol place addend))).0,
      )
      (ground arith)
  where
    cut_word : (x : ℕ) → x % 2 ^ 32 % 2 ^ 26 ≡ x % 2 ^ 26
    cut_word x = omega arith

-- The opcode of B and BL, cut to 32 bits.
bl_opcode :
    (insn delta : ℕ)
    → patch_call26 insn delta % 2 ^ 32 / 2 ^ 26
      ≡ (if insn / 2 ^ 26 % 2 ^ 6 == 0 then 0x25 else insn / 2 ^ 26 % 2 ^ 6)
bl_opcode insn delta = ground (arith, (patch_call26-fields insn delta).1)

-- On AArch64 a call relocation leaves the opcode that stood there, or BL, and an offset that reaches
-- S + A, where that is a multiple of four bytes within 128 MiB.
pub call_aarch64_value :
    (symbol place addend : ℕ) (bytes : List ℕ) (offset : ℕ) {bytes' : List ℕ}
    → place < 2 ^ 64
    → delta_of symbol place addend % 4 ≡ 0
    → Within (2 ^ 27) (delta_of symbol place addend)
    → evaluate call_relative symbol place addend bytes offset aarch64 ≡ patched bytes'
    → (insn : ℕ) × (load_insn bytes offset ≡ some insn)
      × ((w : ℕ) × (load_insn bytes' offset ≡ some w)
          × (w / 2 ^ 26 ≡ (if insn / 2 ^ 26 % 2 ^ 6 == 0 then 0x25 else insn / 2 ^ 26 % 2 ^ 6))
          × (add64 place (extend28 (w % 2 ^ 26 * 4)) ≡ add64 symbol addend))
unfolding evaluate evaluate_call
call_aarch64_value symbol place addend bytes offset {bytes'} hp aligned within h =
    let (insn, e, (w, load, (opcode, reaches))) =
      patched_word
        (λ insn w.
          (w / 2 ^ 26 ≡ (if insn / 2 ^ 26 % 2 ^ 6 == 0 then 0x25 else insn / 2 ^ 26 % 2 ^ 6))
          × (add64 place (extend28 (w % 2 ^ 26 * 4)) ≡ add64 symbol addend))
        bytes offset (λ insn. patch_call26 insn (div4 (delta_of symbol place addend)))
        (λ insn. (
          bl_opcode insn (div4 (delta_of symbol place addend)),
          bl_reaches symbol place addend insn hp aligned within,
        ))
        (ground arith) in
    (insn, e, (w, load, opcode, reaches))

branch_reaches :
    (symbol place addend insn : ℕ)
    → place < 2 ^ 64
    → delta_of symbol place addend % 2 ≡ 0
    → Within (2 ^ 12) (delta_of symbol place addend)
    → add64 place (
        extend13
          (branch_offset (patch_branch insn (low32 (delta_of symbol place addend)) % 2 ^ 32)))
      ≡ add64 symbol addend
branch_reaches symbol place addend insn hp even within =
    rw
      (
        cut_word (patch_branch insn (low32 (delta_of symbol place addend))),
        (branch_offset-patch_branch insn (low32 (delta_of symbol place addend)) (omega arith)).0,
      )
      (ground arith)
  where
    cut_word : (x : ℕ) → branch_offset (x % 2 ^ 32) ≡ branch_offset x
    cut_word x = omega arith

-- The opcode, the function code and the registers of the branch that stood there.
branch_kept :
    (insn imm : ℕ)
    → imm % 2 ≡ 0
    → (patch_branch insn imm % 2 ^ 32 % 2 ^ 7 ≡ insn % 2 ^ 7)
      × (patch_branch insn imm % 2 ^ 32 / 2 ^ 12 % 2 ^ 13 ≡ insn / 2 ^ 12 % 2 ^ 13)
branch_kept insn imm even =
    let (offset, low, mid) = branch_offset-patch_branch insn imm even in
    (omega (arith, low), omega (arith, mid))

-- On RISC-V a branch relocation keeps the opcode, the function code and the registers, and leaves an
-- offset that reaches S + A, where that is an even distance within four KiB.
pub branch_riscv64_value :
    (symbol place addend : ℕ) (bytes : List ℕ) (offset : ℕ) {bytes' : List ℕ}
    → place < 2 ^ 64
    → delta_of symbol place addend % 2 ≡ 0
    → Within (2 ^ 12) (delta_of symbol place addend)
    → evaluate branch_relative symbol place addend bytes offset riscv64 ≡ patched bytes'
    → (insn : ℕ) × (load_insn bytes offset ≡ some insn)
      × ((w : ℕ) × (load_insn bytes' offset ≡ some w)
          × (w % 2 ^ 7 ≡ insn % 2 ^ 7)
          × (w / 2 ^ 12 % 2 ^ 13 ≡ insn / 2 ^ 12 % 2 ^ 13)
          × (add64 place (extend13 (branch_offset w)) ≡ add64 symbol addend))
unfolding evaluate evaluate_branch
branch_riscv64_value symbol place addend bytes offset {bytes'} hp even within h =
    let imm = low32 (delta_of symbol place addend) in
    let (insn, e, (w, load, (opcode, fields, reaches))) =
      patched_word
        (λ insn w.
          (w % 2 ^ 7 ≡ insn % 2 ^ 7)
          × (w / 2 ^ 12 % 2 ^ 13 ≡ insn / 2 ^ 12 % 2 ^ 13)
          × (add64 place (extend13 (branch_offset w)) ≡ add64 symbol addend))
        bytes offset (λ insn. patch_branch insn imm)
        (λ insn.
          let (low, mid) = branch_kept insn imm (omega arith) in
          (low, mid, branch_reaches symbol place addend insn hp even within))
        (ground arith) in
    (insn, e, (w, load, opcode, fields, reaches))
