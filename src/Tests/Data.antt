-- ===== src/Tests/Data.antt =====
-- The artifacts that the tests link: a program on RISC-V that calls a helper of another artifact.
use fyra.Prelude.{ℕ, String, Bool, true, false, List, [], ◌∷◌}
use fyra.Target.{riscv64, linux}
use fyra.Object.{
  ObjectArtifact, ObjectSection, ObjectSymbol, ObjectRelocation, ObjectFormat, SymbolBinding,
  SymbolType,
}
use fyra.Linker.Lazy.{ArchiveObjectMember}

abbrev pub section_of : String → List ℕ → ObjectSection
section_of name bytes = record {
  name = name;
  bytes = bytes;
  virtual_size = 0;
  virtual_address = 0;
  alignment = 16;
  flags = 0;
}

abbrev pub function_symbol : String → SymbolBinding → Bool → ObjectSymbol
function_symbol name binding is_defined = record {
  name = name;
  value = 0;
  size = 4;
  binding = binding;
  type = SymbolType.function;
  section_name = ".text";
  is_defined = is_defined;
}

abbrev pub call_of : String → ℕ → ObjectRelocation
call_of name offset = record {
  offset = offset;
  type = "R_RISCV_JAL";
  addend = 0;
  symbol_name = name;
  section_name = ".text";
}

abbrev pub main_text : List ℕ
main_text = 0x13 ∷ 0 ∷ 0 ∷ 0 ∷ 0xEF ∷ 0 ∷ 0 ∷ 0 ∷ 0x67 ∷ 0x80 ∷ 0 ∷ 0 ∷ []

abbrev pub main_section : ObjectSection
main_section = section_of ".text" main_text

abbrev pub main_artifact : ObjectArtifact
main_artifact = record {
  format = ObjectFormat.elf;
  arch = riscv64;
  os = linux;
  sections = (".text", main_section) ∷ [];
  symbols =
      function_symbol "main" SymbolBinding.global true
      ∷ function_symbol "helper" SymbolBinding.global false
      ∷ [];
  relocations = call_of "helper" 4 ∷ [];
}

abbrev pub helper_section : ObjectSection
helper_section = section_of ".text" (0x67 ∷ 0x80 ∷ 0 ∷ 0 ∷ [])

abbrev pub helper_artifact : ObjectArtifact
helper_artifact = record {
  format = ObjectFormat.elf;
  arch = riscv64;
  os = linux;
  sections = (".rodata", section_of ".rodata" (1 ∷ 2 ∷ 3 ∷ [])) ∷ (".text", helper_section) ∷ [];
  symbols = function_symbol "helper" SymbolBinding.global true ∷ [];
  relocations = [];
}

abbrev pub program : List ObjectArtifact
program = main_artifact ∷ helper_artifact ∷ []

abbrev pub member_of : String → ObjectArtifact → ArchiveObjectMember
member_of name artifact = record { name = name; bytes = []; artifact = artifact; extracted = false }
