-- ===== src/Relocation/Evaluate.antt =====
-- `evaluate` and `getImportThunkBytes`. On an error the section's bytes are left as they were, so an
-- error carries none. `undefined` is no value of the C++ code: it marks an access outside the vector.
use Prim.Native.Nat.{bit_and}
use fyra.Prelude.{
  ℕ, Bool, ◌&&◌, ◌||◌, Option, none, some, List, [], ◌∷◌, ltb, length, if◌then◌else◌,
}
use fyra.Word.{add64, sub64, not64, low32, div4, sar64, fits_int32}
use fyra.Bytes.{le_bytes, of_le, read_bytes, write_bytes}
use fyra.Target.{
  Arch, Os, x64, aarch64, riscv64, loongarch64, linux, windows, macos, same_arch, same_os,
}
use fyra.Relocation.Kind.{
  RelocationKind, absolute, pc_relative, call_relative, branch_relative, unknown,
}
use fyra.Relocation.Encode.{
  is_adrp, is_add_immediate, patch_adrp, patch_add_immediate, patch_call26, patch_jal,
  patch_condbr19, patch_branch,
}

pub data EvalError : Type 0 where
  pc_out_of_bounds absolute_out_of_bounds call_out_of_bounds branch_out_of_bounds : EvalError
  pc_overflow : ℕ → EvalError
  unsupported_kind undefined : EvalError

pub data Evaluated : Type 0 where
  patched : List ℕ → Evaluated
  failed : EvalError → Evaluated

abbrev pub written : Option (List ℕ) → Evaluated
written none = failed undefined
written (some bytes) = patched bytes

-- memcpy of the low `n` bytes of a value to `offset`
unfoldable pub store : List ℕ → ℕ → ℕ → ℕ → Evaluated
store bytes offset n value = written (write_bytes bytes offset (le_bytes n value))

-- memcpy of a 32-bit word from `offset`
unfoldable pub load_insn : List ℕ → ℕ → Option ℕ
load_insn bytes offset = elim (read_bytes bytes offset 4) [ none ↦ none | some w ↦ some (of_le w) ]

-- Read the word at `offset`, change it, and write it back.
unfoldable pub patch_insn : List ℕ → ℕ → (ℕ → ℕ) → Evaluated
unfolding store load_insn
patch_insn bytes offset change = elim (load_insn bytes offset) [
  | none ↦ failed undefined
  | some insn ↦ store bytes offset 4 (change insn)
]

-- `offset + n > sectionData.size()`; the sum is a uint64_t.
abbrev pub outside : List ℕ → ℕ → ℕ → Bool
outside bytes offset n = ltb (length bytes) (add64 offset n)

-- S + A - P, as an int64_t
abbrev pub delta_of : ℕ → ℕ → ℕ → ℕ
delta_of symbol place addend = sub64 (add64 symbol addend) place

-- ((S & ~0xFFF) + A - (P & ~0xFFF)) >> 12
unfoldable pub page_delta_of : ℕ → ℕ → ℕ → ℕ
page_delta_of symbol place addend =
    sar64 (sub64 (add64 (bit_and symbol (not64 0xFFF)) addend) (bit_and place (not64 0xFFF))) 12

unfoldable pub store_pc32 : List ℕ → ℕ → ℕ → Evaluated
unfolding store
store_pc32 bytes offset delta =
    if fits_int32 delta then store bytes offset 4 (low32 delta) else failed (pc_overflow delta)

-- The word read in the AArch64 case decides between the page, the page offset and the plain value.
unfoldable pub evaluate_aarch64_pc : ℕ → ℕ → ℕ → List ℕ → ℕ → Option ℕ → Evaluated
unfolding store store_pc32 page_delta_of
evaluate_aarch64_pc symbol place addend bytes offset none = failed undefined
evaluate_aarch64_pc symbol place addend bytes offset (some insn) =
    if is_adrp insn
    then store bytes offset 4 (patch_adrp insn (page_delta_of symbol place addend))
    else if is_add_immediate insn
    then store bytes offset 4 (patch_add_immediate insn (add64 symbol addend))
    else store_pc32 bytes offset (delta_of symbol place addend)

unfoldable pub evaluate_pc : ℕ → ℕ → ℕ → List ℕ → ℕ → Arch → Evaluated
unfolding evaluate_aarch64_pc store_pc32 load_insn
evaluate_pc symbol place addend bytes offset arch =
    if same_arch arch aarch64
    then evaluate_aarch64_pc symbol place addend bytes offset (load_insn bytes offset)
    else store_pc32 bytes offset (delta_of symbol place addend)

unfoldable pub evaluate_call : ℕ → List ℕ → ℕ → Arch → Evaluated
unfolding patch_insn store
evaluate_call delta bytes offset arch =
    if same_arch arch aarch64
    then patch_insn bytes offset (λ insn. patch_call26 insn (div4 delta))
    else if same_arch arch riscv64
    then patch_insn bytes offset (λ insn. patch_jal insn (low32 delta))
    else store bytes offset 4 (low32 delta)

unfoldable pub evaluate_branch : ℕ → List ℕ → ℕ → Arch → Evaluated
unfolding patch_insn store
evaluate_branch delta bytes offset arch =
    if same_arch arch aarch64
    then patch_insn bytes offset (λ insn. patch_condbr19 insn (div4 delta))
    else if same_arch arch riscv64
    then patch_insn bytes offset (λ insn. patch_branch insn (low32 delta))
    else store bytes offset 4 (low32 delta)

unfoldable pub evaluate : RelocationKind → ℕ → ℕ → ℕ → List ℕ → ℕ → Arch → Evaluated
unfolding evaluate_pc evaluate_call evaluate_branch store
evaluate pc_relative symbol place addend bytes offset arch =
    if outside bytes offset 4
    then failed pc_out_of_bounds
    else evaluate_pc symbol place addend bytes offset arch
evaluate absolute symbol place addend bytes offset arch =
    if outside bytes offset 8
    then failed absolute_out_of_bounds
    else store bytes offset 8 (add64 symbol addend)
evaluate call_relative symbol place addend bytes offset arch =
    if outside bytes offset 4
    then failed call_out_of_bounds
    else evaluate_call (delta_of symbol place addend) bytes offset arch
evaluate branch_relative symbol place addend bytes offset arch =
    if outside bytes offset 4
    then failed branch_out_of_bounds
    else evaluate_branch (delta_of symbol place addend) bytes offset arch
evaluate unknown symbol place addend bytes offset arch = failed unsupported_kind

unfoldable pub import_thunk_bytes : Arch → Os → List ℕ
import_thunk_bytes arch os =
    if same_arch arch x64 && (same_os os windows || same_os os linux || same_os os macos)
    then 0xFF ∷ 0x25 ∷ 0 ∷ 0 ∷ 0 ∷ 0 ∷ []
    else if same_arch arch aarch64
    then 0x10 ∷ 0x00 ∷ 0x00 ∷ 0x90 ∷ 0x10 ∷ 0x00 ∷ 0x40 ∷ 0xF9 ∷ 0x00 ∷ 0x02 ∷ 0x1F ∷ 0xD6 ∷ 0x1F
      ∷ 0x20 ∷ 0x03 ∷ 0xD5 ∷ []
    else if same_arch arch riscv64
    then 0x97 ∷ 0x02 ∷ 0x00 ∷ 0x00 ∷ 0x83 ∷ 0xB2 ∷ 0x02 ∷ 0x00 ∷ 0x67 ∷ 0x80 ∷ 0x02 ∷ 0x00 ∷ 0x13
      ∷ 0x00 ∷ 0x00 ∷ 0x00 ∷ []
    else if same_arch arch loongarch64
    then 0x5C ∷ 0x00 ∷ 0x00 ∷ 0x14 ∷ 0x5C ∷ 0x00 ∷ 0xC0 ∷ 0x28 ∷ 0x00 ∷ 0x00 ∷ 0x00 ∷ 0x4C ∷ 0x00
      ∷ 0x00 ∷ 0x00 ∷ 0x00 ∷ []
    else []
