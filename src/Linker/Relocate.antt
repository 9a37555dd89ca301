-- ===== src/Linker/Relocate.antt =====
-- InternalLinker::link, the evaluation of relocations: each symbol is a defined symbol, a section or
-- a dynamic import, for which a thunk is made behind the text.
pub mod Extends
use fyra.Prelude.{
  ℕ, suc, String, Bool, true, false, Option, none, some, List, [], ◌∷◌, ◌++◌, length, if◌then◌else◌,
}
use fyra.Prelude.Texts.{append, lookup, insert}
use fyra.Prelude.Texts.{◌==◌ as str_eq}
use fyra.Word.{add64}
use fyra.Object.{ObjectArtifact, ObjectRelocation}
use fyra.Relocation.{
  RelocationKind, absolute, unknown, EvalError, Evaluated, patched, failed, normalize_type,
  evaluate, import_thunk_bytes,
}
use fyra.Linker.Image.{
  LinkedImage, LinkedSection, LinkedSymbol, DynamicImport, DynamicImportKind, DataImportFixup,
  data_object, find_section, find_symbol,
}
use fyra.Linker.Layout.{SectionPlacement, offset_in_output}
use fyra.Linker.Entry.{append_to_text}
use fyra.Linker.Errors.{
  Result, ok, err, unresolved_symbol, missing_text_for_thunk, thunk_unsupported,
  unknown_relocation_type, relocation_failed, ◌>>=◌,
}

unfoldable pub find_import : List DynamicImport → String → Option DynamicImport
find_import [] name = none
find_import (imp ∷ imps) name = if str_eq imp.symbol name then some imp else find_import imps name

-- What a relocation refers to: an address in the image, or a datum that the image's writer binds.
pub data Resolved : Type 0 where
  address : LinkedImage → ℕ → Resolved
  deferred : LinkedImage → Resolved

abbrev pub is_data : DynamicImportKind → Bool
is_data data_object = true
is_data DynamicImportKind.function = false

abbrev pub thunk_name : String → String
thunk_name name = append "__imp_thunk_" name

abbrev pub no_bytes : List ℕ → Bool
no_bytes [] = true
no_bytes (b ∷ bs) = false

unfoldable pub add_thunk : LinkedImage → String → Option LinkedSection → Result Resolved
unfolding import_thunk_bytes append_to_text
add_thunk image name none = err (missing_text_for_thunk name)
add_thunk image name (some text) =
    let thunk_vma = add64 text.virtual_address (length text.bytes) in
    let bytes = import_thunk_bytes image.arch image.os in
    let image' = append_to_text image text bytes (record {
      name = thunk_name name;
      virtual_address = thunk_vma;
      size = length bytes;
      is_function = true;
      is_global = false;
      section_name = ".text";
    }) in
    if no_bytes bytes
    then err thunk_unsupported
    else ok (
        address
          (record image' { import_thunk_vmas = insert name thunk_vma image'.import_thunk_vmas })
          thunk_vma)

-- A thunk that was made for an earlier relocation is used again.
unfoldable pub resolve_function : LinkedImage → String → Option LinkedSymbol → Result Resolved
unfolding add_thunk
resolve_function image name (some thunk) = ok (address image thunk.virtual_address)
resolve_function image name none = add_thunk image name (find_section image ".text")

-- Where the relocation's bytes stand: `lsec->virtualAddress + outputOffset + reloc.offset`.
abbrev pub place_of : LinkedSection → ℕ → ObjectRelocation → ℕ
place_of lsec output_offset reloc = add64 (add64 lsec.virtual_address output_offset) reloc.offset

unfoldable pub resolve_import :
    LinkedImage → LinkedSection → ℕ → ObjectRelocation → Option DynamicImport → Result Resolved
unfolding resolve_function
resolve_import image lsec output_offset reloc none = err (unresolved_symbol reloc.symbol_name)
resolve_import image lsec output_offset reloc (some imp) =
    let named = record image {
      import_library_names =
          insert reloc.symbol_name imp.dependency_library image.import_library_names;
    } in
    let fixup : DataImportFixup = record {
      section_name = reloc.section_name;
      section_offset = add64 output_offset reloc.offset;
      place_address = place_of lsec output_offset reloc;
      symbol_name = reloc.symbol_name;
      addend = reloc.addend;
      reloc_type = reloc.type;
    } in
    if is_data imp.kind
    then ok
        (deferred (record named { data_import_fixups = named.data_import_fixups ++ (fixup ∷ []) }))
    else resolve_function named reloc.symbol_name (find_symbol named (thunk_name reloc.symbol_name))

-- A symbol is looked for first, then a section, then an import.
unfoldable pub resolve_target :
    LinkedImage → LinkedSection → ℕ → ObjectRelocation → List DynamicImport → Result Resolved
unfolding resolve_import find_import
resolve_target image lsec output_offset reloc imports = elim (find_symbol image reloc.symbol_name) [
  | some sym ↦ ok (address image sym.virtual_address)
  | none ↦ elim (find_section image reloc.symbol_name) [
    | some sec ↦ ok (address image sec.virtual_address)
    | none ↦ resolve_import image lsec output_offset reloc (find_import imports reloc.symbol_name)
  ]
]

abbrev pub is_absolute : RelocationKind → Bool
is_absolute absolute = true
is_absolute _ = false

abbrev pub is_unknown : RelocationKind → Bool
is_unknown unknown = true
is_unknown _ = false

-- The patched bytes go back into the section, and an absolute place is recorded.
unfoldable pub store_patched :
    LinkedImage
    → LinkedSection
    → ObjectRelocation
    → RelocationKind
    → ℕ
    → Evaluated
    → Result LinkedImage
store_patched image lsec reloc kind place (failed e) = err (relocation_failed reloc.symbol_name e)
store_patched image lsec reloc kind place (patched bytes) = ok (record image {
  sections = insert reloc.section_name (record lsec { bytes = bytes }) image.sections;
  relocation_fixup_vmas =
      if is_absolute kind
      then image.relocation_fixup_vmas ++ (place ∷ [])
      else image.relocation_fixup_vmas;
})

-- `lsec` is read again here, since a thunk may have been put behind it.
unfoldable pub apply_at :
    LinkedImage → ℕ → ℕ → ObjectRelocation → Option LinkedSection → Result LinkedImage
unfolding store_patched evaluate normalize_type
apply_at image target output_offset reloc none = ok image
apply_at image target output_offset reloc (some lsec) =
    let kind = normalize_type reloc.type in
    let place = place_of lsec output_offset reloc in
    if is_unknown kind
    then err (unknown_relocation_type reloc.symbol_name reloc.section_name reloc.type)
    else store_patched image lsec reloc kind place (
        evaluate kind target place reloc.addend lsec.bytes (add64 output_offset reloc.offset)
          image.arch)

unfoldable pub apply_resolved : ℕ → ObjectRelocation → Resolved → Result LinkedImage
unfolding apply_at
apply_resolved output_offset reloc (deferred image) = ok image
apply_resolved output_offset reloc (address image target) =
    apply_at image target output_offset reloc (find_section image reloc.section_name)

unfoldable pub relocate_in :
    List DynamicImport
    → ℕ
    → ObjectRelocation
    → LinkedImage
    → Option LinkedSection
    → Result LinkedImage
unfolding resolve_target apply_resolved
relocate_in imports output_offset reloc image none = ok image
relocate_in imports output_offset reloc image (some lsec) =
    resolve_target image lsec output_offset reloc imports >>= apply_resolved output_offset reloc

unfoldable pub relocate_one :
    List SectionPlacement
    → List DynamicImport
    → ℕ
    → ObjectRelocation
    → LinkedImage
    → Result LinkedImage
unfolding relocate_in offset_in_output
relocate_one placements imports index reloc image =
    relocate_in imports (offset_in_output placements index reloc.section_name) reloc image
      (find_section image reloc.section_name)

unfoldable pub relocate_artifact :
    List SectionPlacement
    → List DynamicImport
    → ℕ
    → List ObjectRelocation
    → LinkedImage
    → Result LinkedImage
unfolding relocate_one
relocate_artifact placements imports index [] image = ok image
relocate_artifact placements imports index (reloc ∷ relocs) image =
    relocate_one placements imports index reloc image
    >>= relocate_artifact placements imports index relocs

unfoldable pub relocate_all :
    List SectionPlacement
    → List DynamicImport
    → ℕ
    → List ObjectArtifact
    → LinkedImage
    → Result LinkedImage
unfolding relocate_artifact
relocate_all placements imports index [] image = ok image
relocate_all placements imports index (art ∷ arts) image =
    relocate_artifact placements imports index art.relocations image
    >>= relocate_all placements imports (suc index) arts
