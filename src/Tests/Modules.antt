-- ===== src/Tests/Modules.antt =====
-- The plan of the linked program, and numbers of a WebAssembly module.
use fyra.Prelude.{◌≡◌, refl, arith, ◌↔◌, String, true, false, some, List, [], ◌∷◌}
use fyra.Target.{linux}
use fyra.Linker.Image.{LinkedSymbol, DynamicImport, DynamicImportKind, executable}
use fyra.Linker.Layout.{layout}
use fyra.Linker.Symbols.Resolved.{EachGlobal}
use fyra.Linker.Link.{placed_of}
use fyra.Linker.Plan.{DynamicExport, has_dependency, create_from_linked_image}
use fyra.Linker.Plan.Exports.{
  DistinctLibraries, imported_from, Contains, HasEntry, create-dependencies, create-exports,
  IsExport, ExportedIn, link-EachGlobal,
}
use fyra.Wasm.Leb128.{encode_unsigned_leb128, encode_signed_leb128}
use fyra.Wasm.RoundTrip.{
  Written, decode_unsigned, decode_signed, decode-encode_unsigned, decode-encode_signed,
}
use fyra.Tests.Data.{main_artifact, helper_artifact, program}
use fyra.Tests.Linking.{linked_image, links}

abbrev import_of : String → String → DynamicImport
import_of symbol library = record {
  symbol = symbol;
  dependency_library = library;
  is_weak = false;
  kind = DynamicImportKind.function;
  is_ordinal = false;
  ordinal = 0;
}

abbrev libc_imports : List DynamicImport
libc_imports =
    import_of "printf" "libc.so" ∷ import_of "sin" "libm.so" ∷ import_of "puts" "libc.so" ∷ []

create-dependencies_example :
    DistinctLibraries (create_from_linked_image linked_image libc_imports).dependencies
    × ((library : String)
        → has_dependency (create_from_linked_image linked_image libc_imports).dependencies library
          ≡ imported_from libc_imports library)
    × ((create_from_linked_image linked_image libc_imports).imports ≡ libc_imports)
create-dependencies_example = create-dependencies linked_image libc_imports

abbrev helper_export : DynamicExport
helper_export = record {
  symbol = "helper";
  is_function = true;
  address = 0x401010;
  size = 4;
  section_name = ".text";
}

create-exports_example :
    Contains helper_export (create_from_linked_image linked_image libc_imports).exports ↔ (
      (s : LinkedSymbol) × HasEntry s linked_image.symbols
      × (s.is_global ≡ true)
      × IsExport s helper_export)
create-exports_example = create-exports linked_image libc_imports helper_export

link-EachGlobal_example :
    EachGlobal
      (ExportedIn
        (create_from_linked_image linked_image []).exports
        (placed_of linux (layout 0x400000 program)))
      0
      program
link-EachGlobal_example = link-EachGlobal main_artifact (helper_artifact ∷ []) executable [] links

decode-encode_unsigned_example :
    Written (encode_unsigned_leb128 624485) decode_unsigned 5 624485 (7 ∷ [])
decode-encode_unsigned_example = decode-encode_unsigned 624485 (7 ∷ []) (omega arith)

-- -123456
decode-encode_signed_example :
    Written (encode_signed_leb128 4294843840) decode_signed 5 4294843840 (7 ∷ [])
decode-encode_signed_example = decode-encode_signed 4294843840 (7 ∷ []) (omega arith)

bytes_of_624485 : encode_unsigned_leb128 624485 ≡ some (0xE5 ∷ 0x8E ∷ 0x26 ∷ [])
unfolding encode_unsigned_leb128
bytes_of_624485 = refl

bytes_of_negative : encode_signed_leb128 4294843840 ≡ some (0xC0 ∷ 0xBB ∷ 0x78 ∷ [])
unfolding encode_signed_leb128
bytes_of_negative = refl
