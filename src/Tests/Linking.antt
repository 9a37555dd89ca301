-- ===== src/Tests/Linking.antt =====
-- Two artifacts are linked.
use fyra.Prelude.{
  ◌+◌, ◌≡◌, ◌<◌, refl, arith, String, Bool, true, List, [], ◌∷◌, some, ◌↔◌, leb, leb→le, ◌&&◌, ◌^◌,
}
use fyra.Prelude.Texts.{insert, lookup}
use fyra.Prelude.Texts.{StringMap}
use fyra.Word.{align_up}
use fyra.Bytes.{read_bytes, write_bytes}
use fyra.Object.{ObjectArtifact, find_section}
use fyra.Target.{linux}
use fyra.Linker.Image.{LinkedImage, LinkedSymbol, executable}
use fyra.Linker.Errors.{Result, ok, err}
use fyra.Linker.Link.{placed_of, link, image_of, compatible}
use fyra.Linker.Link.Sound.{Linked, link-Linked}
use fyra.Linker.Layout.{layout, Layout, layout_section, place_artifacts, ordered_sections}
use fyra.Linker.Layout.Addresses.{Arranged, AddressesFit, first_layout, layout-Arranged}
use fyra.Linker.Layout.Stands.{AlignedInput, room}
use fyra.Linker.Layout.Untouched.{StandsIn}
use fyra.Linker.Layout.Sections.{layout-StandsIn}
use fyra.Linker.Symbols.{resolve_symbols}
use fyra.Linker.Symbols.Listed.{linked_symbols}
use fyra.Linker.Symbols.Unique.{Distinct, global_names, resolve_symbols-Distinct}
use fyra.Linker.Symbols.Resolved.{EachGlobal, ResolvedIn, resolve_symbols-EachGlobal}
use fyra.Linker.Entry.{add_start, set_entry}
use fyra.Linker.Relocate.{relocate_all}
use fyra.Linker.Relocate.Extends.{Extends, relocate_all-Extends}
use fyra.Tests.Data.{main_artifact, helper_artifact, program, helper_section}

abbrev image_or : LinkedImage → Result LinkedImage → LinkedImage
image_or other (ok image) = image
image_or other (err e) = other

abbrev pub linked_image : LinkedImage
unfolding link
linked_image =
    image_or (image_of main_artifact executable (layout 0 [])) (link program executable [])

pub links : link program executable [] ≡ ok linked_image
unfolding link insert align_up read_bytes write_bytes
links = refl

link-Linked_example :
    (compatible main_artifact (helper_artifact ∷ []) ≡ true)
    × Linked main_artifact program linked_image
link-Linked_example = link-Linked main_artifact (helper_artifact ∷ []) executable [] links

-- Whether the addresses fit, as a test.
unfoldable addresses_fit : List ObjectArtifact → List String → Layout → Bool
unfolding place_artifacts layout_section
addresses_fit arts [] l = true
addresses_fit arts (name ∷ names) l =
    leb
      (l.current_vma
        + (place_artifacts name 0 arts
            (record { offset = 0; bytes = []; placements = l.placements })).offset
        + 0x1000)
      (2 ^ 64)
    && addresses_fit arts names (layout_section arts name l)

addresses_fit-AddressesFit :
    (arts : List ObjectArtifact) (names : List String) (l : Layout)
    → addresses_fit arts names l ≡ true
    → AddressesFit arts names l
unfolding addresses_fit
addresses_fit-AddressesFit arts [] l h = tt
addresses_fit-AddressesFit arts (name ∷ names) l h = (
  leb→le _ _ (ground arith),
  addresses_fit-AddressesFit arts names (layout_section arts name l) (ground arith),
)

program_fits : addresses_fit program ordered_sections (first_layout 0x400000) ≡ true
unfolding addresses_fit insert align_up lookup
program_fits = refl

layout-Arranged_example : Arranged (layout 0x400000 program)
layout-Arranged_example =
    layout-Arranged 0x400000 program
      (addresses_fit-AddressesFit program ordered_sections (first_layout 0x400000) program_fits)

abbrev names_after_text : List String
names_after_text =
    ".rodata" ∷ ".data" ∷ ".bss" ∷ ".debug_info" ∷ ".debug_abbrev" ∷ ".debug_line" ∷ ".debug_str"
    ∷ ".debug_frame" ∷ ".eh_frame" ∷ []

aligned : AlignedInput ".text" program
unfolding lookup find_section
aligned = ((60, 4, refl, refl), ((60, 4, refl, refl), tt))

helper_found : find_section helper_artifact ".text" ≡ some helper_section
unfolding find_section lookup
helper_found = refl

small_room : room ".text" program < 2 ^ 64
unfolding find_section lookup
small_room = omega arith

layout-StandsIn_example : StandsIn ".text" 1 16 helper_section.bytes (layout 0x400000 program)
layout-StandsIn_example =
    layout-StandsIn 0x400000 program ".text" [] names_after_text 1 helper_artifact helper_section
      refl tt (refl, (refl, (refl, (refl, (refl, (refl, (refl, (refl, (refl, tt))))))))) refl
      aligned small_room refl helper_found (omega arith)

abbrev program_layout : Layout
program_layout = layout 0x400000 program

resolve_symbols-Distinct_example :
    ((m : StringMap LinkedSymbol) × (resolve_symbols (placed_of linux program_layout) 0 program []
        ≡ ok m))
    ↔ Distinct (global_names (linked_symbols (placed_of linux program_layout) 0 program))
resolve_symbols-Distinct_example = resolve_symbols-Distinct (placed_of linux program_layout) program

abbrev symbols_or : Result (StringMap LinkedSymbol) → StringMap LinkedSymbol
symbols_or (ok m) = m
symbols_or (err e) = []

abbrev program_symbols : StringMap LinkedSymbol
program_symbols = symbols_or (resolve_symbols (placed_of linux program_layout) 0 program [])

symbols_resolve : resolve_symbols (placed_of linux program_layout) 0 program [] ≡ ok program_symbols
unfolding resolve_symbols layout insert align_up lookup
symbols_resolve = refl

resolve_symbols-EachGlobal_example :
    EachGlobal (ResolvedIn (placed_of linux program_layout) program_symbols) 0 program
resolve_symbols-EachGlobal_example =
    resolve_symbols-EachGlobal (placed_of linux program_layout) program symbols_resolve

abbrev before_relocation : LinkedImage
before_relocation = set_entry (
    add_start
      (record (image_of main_artifact executable program_layout) { symbols = program_symbols }))

relocates : relocate_all program_layout.placements [] 0 program before_relocation ≡ ok linked_image
unfolding link resolve_symbols layout add_start set_entry insert align_up lookup read_bytes
    write_bytes
relocates = refl

relocate_all-Extends_example : Extends before_relocation linked_image
relocate_all-Extends_example =
    relocate_all-Extends program_layout.placements [] 0 program before_relocation relocates
