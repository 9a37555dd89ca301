-- ===== src/Linker/Plan.antt =====
-- target/artifact/linker/DynamicLinkPlan.{h,cpp}: what a writer of shared libraries needs of a linked
-- image. The imports of the plan are the given ones.
pub mod Exports
use fyra.Prelude.{ℕ, String, Bool, true, false, ◌||◌, Option, List, [], ◌∷◌, ◌++◌, if◌then◌else◌}
use fyra.Prelude.Texts.{StringMap, lookup}
use fyra.Prelude.Texts.{◌==◌ as str_eq}
use fyra.Target.{Arch, Os}
use fyra.Linker.Image.{
  LinkedImage, LinkedSection, LinkedSymbol, LinkOutputKind, DataImportFixup, DynamicImport,
}

pub record DynamicExport : Type 0 where
  pub symbol : String
  pub is_function : Bool
  pub address : ℕ
  pub size : ℕ
  pub section_name : String

pub record DynamicDependency : Type 0 where
  pub library_name : String

-- `relocations` stays empty here.
pub record DynamicLinkPlan : Type 0 where
  pub arch : Arch
  pub os : Os
  pub output_kind : LinkOutputKind
  pub sections : StringMap LinkedSection
  pub exports : List DynamicExport
  pub imports : List DynamicImport
  pub dependencies : List DynamicDependency
  pub relocation_fixup_vmas : List ℕ
  pub import_thunk_vmas : StringMap ℕ
  pub data_import_fixups : List DataImportFixup
  pub entry_address : ℕ
  pub entry_symbol_name : String

abbrev pub export_of : LinkedSymbol → DynamicExport
export_of sym = record {
  symbol = sym.name;
  is_function = sym.is_function;
  address = sym.virtual_address;
  size = sym.size;
  section_name = sym.section_name;
}

unfoldable pub exports_of : StringMap LinkedSymbol → List DynamicExport
exports_of [] = []
exports_of ((name, sym) ∷ symbols) =
    let rest = exports_of symbols in if sym.is_global then export_of sym ∷ rest else rest

unfoldable pub has_dependency : List DynamicDependency → String → Bool
has_dependency [] library = false
has_dependency (dep ∷ deps) library = str_eq dep.library_name library || has_dependency deps library

abbrev pub add_dependency : List DynamicDependency → String → List DynamicDependency
add_dependency deps library =
    if has_dependency deps library then deps else deps ++ (record { library_name = library } ∷ [])

-- The loop over the imports, on `plan.imports` and `plan.dependencies`.
unfoldable pub add_imports : List DynamicImport → DynamicLinkPlan → DynamicLinkPlan
unfolding has_dependency
add_imports [] plan = plan
add_imports (imp ∷ imps) plan = add_imports imps (record plan {
  imports = plan.imports ++ (imp ∷ []);
  dependencies = add_dependency plan.dependencies imp.dependency_library;
})

-- The plan before the imports are visited.
abbrev pub plan_of : LinkedImage → DynamicLinkPlan
plan_of image = record {
  arch = image.arch;
  os = image.os;
  output_kind = image.output_kind;
  sections = image.sections;
  exports = exports_of image.symbols;
  imports = [];
  dependencies = [];
  relocation_fixup_vmas = image.relocation_fixup_vmas;
  import_thunk_vmas = image.import_thunk_vmas;
  data_import_fixups = image.data_import_fixups;
  entry_address = image.entry_address;
  entry_symbol_name = image.entry_symbol_name;
}

unfoldable pub create_from_linked_image : LinkedImage → List DynamicImport → DynamicLinkPlan
unfolding exports_of add_imports
create_from_linked_image image dynamic_imports = add_imports dynamic_imports (plan_of image)
