-- ===== src/Relocation/Kind.antt =====
-- `RelocationKind` and `normalizeType`: the names of the object formats, sorted by what is computed.
use fyra.Prelude.{String, Bool, false, List, [], ◌∷◌, ◌||◌, if◌then◌else◌}
use fyra.Prelude.Texts.{◌==◌}

pub data RelocationKind : Type 0 where
  absolute pc_relative call_relative branch_relative unknown : RelocationKind

unfoldable pub one_of : List String → String → Bool
one_of [] s = false
one_of (t ∷ ts) s = s == t || one_of ts s

abbrev pub pc_relative_types : List String
pc_relative_types =
    "R_X86_64_PC32" ∷ "R_X86_64_PLT32" ∷ "IMAGE_REL_AMD64_REL32" ∷ "X86_64_RELOC_BRANCH"
    ∷ "X86_64_RELOC_SIGNED" ∷ "R_AARCH64_ADR_PREL_PG_HI21" ∷ "IMAGE_REL_ARM64_PAGEBASE_REL21"
    ∷ "R_AARCH64_ADD_ABS_LO12_NC" ∷ "IMAGE_REL_ARM64_PAGEOFFSET_12A" ∷ "R_TYPE_2" ∷ "R_TYPE_4"
    ∷ "R_TYPE_275" ∷ "R_TYPE_277" ∷ []

abbrev pub absolute_types : List String
absolute_types =
    "R_X86_64_64" ∷ "IMAGE_REL_AMD64_ADDR64" ∷ "R_AARCH64_ABS64" ∷ "IMAGE_REL_ARM64_ADDR64"
    ∷ "R_RISCV_64" ∷ "IMAGE_REL_RISCV_ADDR64" ∷ "R_TYPE_1" ∷ "R_TYPE_257" ∷ []

abbrev pub call_relative_types : List String
call_relative_types =
    "R_AARCH64_CALL26" ∷ "R_AARCH64_JUMP26" ∷ "IMAGE_REL_ARM64_BRANCH26" ∷ "R_RISCV_JAL"
    ∷ "R_RISCV_CALL" ∷ "R_RISCV_CALL_PLT" ∷ "IMAGE_REL_RISCV_CALL" ∷ "R_TYPE_283" ∷ "R_TYPE_282"
    ∷ "R_TYPE_17" ∷ "R_TYPE_18" ∷ "R_TYPE_19" ∷ []

abbrev pub branch_relative_types : List String
branch_relative_types =
    "R_AARCH64_CONDBR19" ∷ "R_RISCV_BRANCH" ∷ "IMAGE_REL_RISCV_BRANCH" ∷ "R_TYPE_280" ∷ "R_TYPE_16"
    ∷ []

unfoldable pub normalize_type : String → RelocationKind
unfolding one_of
normalize_type s =
    if one_of pc_relative_types s
    then pc_relative
    else if one_of absolute_types s
    then absolute
    else if one_of call_relative_types s
    then call_relative
    else if one_of branch_relative_types s
    then branch_relative
    else unknown
