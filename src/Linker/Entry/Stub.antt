-- ===== src/Linker/Entry/Stub.antt =====
-- The call of `main` in the `_start` stubs.
use Prim.Native.Nat.{bit_or}
use fyra.Prelude.{ℕ, ◌+◌, ◌*◌, ◌/◌, ◌%◌, ◌^◌, ◌<◌, ◌≡◌, refl, ◌∙◌, ap, arith, some}
use fyra.Word.{add64, sub64, low32, or_low_at}
use fyra.Bytes.{read_bytes, of_le-word}
use fyra.Target.{x64, riscv64}
use fyra.Relocation.{load_insn, jal_immediate}
use fyra.Relocation.Jumps.{jal_offset, jal_immediate-fields}
use fyra.Relocation.Values.{Within, extend32, extend21}
use fyra.Linker.Entry.{start_bytes}

call_value :
    (main_addr start_vma : ℕ)
    → main_addr < 2 ^ 64
    → Within (2 ^ 31) (sub64 main_addr (add64 start_vma 20))
    → add64 (add64 start_vma 20) (extend32 (low32 (sub64 main_addr (add64 start_vma 20)) % 2 ^ 32))
      ≡ main_addr
call_value main_addr start_vma small near = ground arith

jal_word-fields :
    (imm : ℕ)
    → (bit_or 0x6F (jal_immediate imm) % 2 ^ 32 % 2 ^ 7 ≡ 0x6F)
      × (bit_or 0x6F (jal_immediate imm) % 2 ^ 32 / 2 ^ 7 % 2 ^ 5 ≡ 0)
jal_word-fields imm =
    let high =
      ((imm / 2 ^ 20 % 2 * 2 ^ 10 + imm / 2 % 2 ^ 10) * 2 + imm / 2 ^ 11 % 2) * 2 ^ 8
      + imm / 2 ^ 12 % 2 ^ 8 in
    let sum : bit_or 0x6F (jal_immediate imm) ≡ high * 2 ^ 12 + 0x6F =
      or_low_at 12 high 0x6F (jal_immediate-fields imm ∙ omega arith) refl (omega arith) in
    rw sum (omega arith, omega arith)

-- On x64 the stub's call displacement leads from behind the call, 20 bytes into the stub, to `main`,
-- where that lies within 2 GiB.
pub start_bytes_x64 :
    (main_addr start_vma : ℕ)
    → main_addr < 2 ^ 64
    → Within (2 ^ 31) (sub64 main_addr (add64 start_vma 20))
    → (w : ℕ) × (load_insn (start_bytes x64 main_addr start_vma) 16 ≡ some w)
      × (add64 (add64 start_vma 20) (extend32 w) ≡ main_addr)
unfolding start_bytes load_insn read_bytes
start_bytes_x64 main_addr start_vma small near = (
  low32 (sub64 main_addr (add64 start_vma 20)) % 2 ^ 32,
  ap some (of_le-word (low32 (sub64 main_addr (add64 start_vma 20)))),
  call_value main_addr start_vma small near,
)

jal_word-offset :
    (imm : ℕ) → imm % 2 ≡ 0 → jal_offset (bit_or 0x6F (jal_immediate imm) % 2 ^ 32) ≡ imm % 2 ^ 21
jal_word-offset imm even =
    let high =
      ((imm / 2 ^ 20 % 2 * 2 ^ 10 + imm / 2 % 2 ^ 10) * 2 + imm / 2 ^ 11 % 2) * 2 ^ 8
      + imm / 2 ^ 12 % 2 ^ 8 in
    let sum : bit_or 0x6F (jal_immediate imm) ≡ high * 2 ^ 12 + 0x6F =
      or_low_at 12 high 0x6F (jal_immediate-fields imm ∙ omega arith) refl (omega arith) in
    rw sum (omega (arith, even))

jump_value :
    (main_addr start_vma : ℕ)
    → main_addr < 2 ^ 64
    → sub64 main_addr (add64 start_vma 12) % 2 ≡ 0
    → Within (2 ^ 20) (sub64 main_addr (add64 start_vma 12))
    → add64 (add64 start_vma 12) (extend21 (low32 (sub64 main_addr (add64 start_vma 12)) % 2 ^ 21))
      ≡ main_addr
jump_value main_addr start_vma small even near = ground arith

-- On RISC-V the jump of the stub, 12 bytes into it, leads to `main`, where that is an even distance
-- within one MiB; and its link is register x0, so `main` has no address to return to: the comment
-- beside the code has `jal ra, main`.
pub start_bytes_riscv64 :
    (main_addr start_vma : ℕ)
    → main_addr < 2 ^ 64
    → sub64 main_addr (add64 start_vma 12) % 2 ≡ 0
    → Within (2 ^ 20) (sub64 main_addr (add64 start_vma 12))
    → (w : ℕ) × (load_insn (start_bytes riscv64 main_addr start_vma) 12 ≡ some w)
      × (w % 2 ^ 7 ≡ 0x6F)
      × (w / 2 ^ 7 % 2 ^ 5 ≡ 0)
      × (add64 (add64 start_vma 12) (extend21 (jal_offset w)) ≡ main_addr)
unfolding start_bytes load_insn read_bytes
start_bytes_riscv64 main_addr start_vma small even near =
    let imm = low32 (sub64 main_addr (add64 start_vma 12)) in
    let word = bit_or 0x0000006F (jal_immediate imm) in
    let (opcode, link) = jal_word-fields imm in
    let reaches : add64 (add64 start_vma 12) (extend21 (jal_offset (word % 2 ^ 32))) ≡ main_addr =
      rw (jal_word-offset imm (omega (arith, even)))
        (jump_value main_addr start_vma small even near) in
    (word % 2 ^ 32, ap some (of_le-word word), opcode, link, reaches)
