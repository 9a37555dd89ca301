-- ===== src/Object.antt =====
-- include/target/artifact/object/ObjectArtifact.h: an object file as the linker sees it. Bytes and
-- 64-bit fields are native numbers; `std::map` is an association list.
use fyra.Prelude.{ℕ, String, Bool, Option, List}
use fyra.Prelude.Texts.{StringMap, lookup}
use fyra.Target.{Arch, Os}

pub record ObjectSection : Type 0 where
  pub name : String
  pub bytes : List ℕ
  pub virtual_size : ℕ
  pub virtual_address : ℕ
  pub alignment : ℕ
  pub flags : ℕ

pub data SymbolBinding : Type 0 where
  local global weak : SymbolBinding

pub data SymbolType : Type 0 where
  no_type function object section file : SymbolType

pub record ObjectSymbol : Type 0 where
  pub name : String
  pub value : ℕ
  pub size : ℕ
  pub binding : SymbolBinding
  pub type : SymbolType
  pub section_name : String
  pub is_defined : Bool

pub record ObjectRelocation : Type 0 where
  pub offset : ℕ
  pub type : String
  pub addend : ℕ
  pub symbol_name : String
  pub section_name : String

pub data ObjectFormat : Type 0 where
  elf coff macho unknown : ObjectFormat

pub record ObjectArtifact : Type 0 where
  pub format : ObjectFormat
  pub arch : Arch
  pub os : Os
  pub sections : StringMap ObjectSection
  pub symbols : List ObjectSymbol
  pub relocations : List ObjectRelocation

unfoldable pub find_section : ObjectArtifact → String → Option ObjectSection
find_section art name = lookup name art.sections

-- `sym.binding != Local`
abbrev pub is_global : SymbolBinding → Bool
is_global SymbolBinding.local = Bool.false
is_global _ = Bool.true

abbrev pub is_function : SymbolType → Bool
is_function SymbolType.function = Bool.true
is_function _ = Bool.false
