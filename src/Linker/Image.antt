-- ===== src/Linker/Image.antt =====
-- target/artifact/linker/LinkedImage.h and DynamicLinkPlan.h: what the linker builds, and the dynamic
-- imports that it is given.
use fyra.Prelude.{ℕ, String, Bool, Option, List}
use fyra.Prelude.Texts.{StringMap, lookup}
use fyra.Target.{Arch, Os}

pub record LinkedSection : Type 0 where
  pub name : String
  pub bytes : List ℕ
  pub virtual_address : ℕ
  pub virtual_size : ℕ
  pub alignment : ℕ
  pub is_executable : Bool
  pub is_writable : Bool
  pub is_readable : Bool

pub record LinkedSymbol : Type 0 where
  pub name : String
  pub virtual_address : ℕ
  pub size : ℕ
  pub is_function : Bool
  pub is_global : Bool
  pub section_name : String

pub data LinkOutputKind : Type 0 where
  executable shared_library : LinkOutputKind

pub record DataImportFixup : Type 0 where
  pub section_name : String
  pub section_offset : ℕ
  pub place_address : ℕ
  pub symbol_name : String
  pub addend : ℕ
  pub reloc_type : String

pub record LinkedImage : Type 0 where
  pub arch : Arch
  pub os : Os
  pub output_kind : LinkOutputKind
  pub sections : StringMap LinkedSection
  pub symbols : StringMap LinkedSymbol
  pub relocation_fixup_vmas : List ℕ
  pub import_thunk_vmas : StringMap ℕ
  pub import_library_names : StringMap String
  pub data_import_fixups : List DataImportFixup
  pub entry_address : ℕ
  pub entry_symbol_name : String

abbrev pub find_section : LinkedImage → String → Option LinkedSection
find_section image name = lookup name image.sections

abbrev pub find_symbol : LinkedImage → String → Option LinkedSymbol
find_symbol image name = lookup name image.symbols

pub data DynamicImportKind : Type 0 where
  function data_object : DynamicImportKind

pub record DynamicImport : Type 0 where
  pub symbol : String
  pub dependency_library : String
  pub is_weak : Bool
  pub kind : DynamicImportKind
  pub is_ordinal : Bool
  pub ordinal : ℕ
