-- ===== src/Linker/Link.antt =====
-- InternalLinker::link, the whole: checks of the input, layout, symbols, entry point, relocations.
-- Of a failed link the error is modelled, and not the image as far as it got.
pub mod Sound
use fyra.Prelude.{ℕ, Bool, true, false, ◌&&◌, List, [], ◌∷◌, if◌then◌else◌}
use fyra.Target.{Os, windows, same_arch, same_os}
use fyra.Object.{ObjectArtifact}
use fyra.Linker.Image.{LinkedImage, LinkOutputKind, DynamicImport}
use fyra.Linker.Layout.{Layout, layout}
use fyra.Linker.Symbols.{Placed, resolve_symbols}
use fyra.Linker.Entry.{add_start, set_entry}
use fyra.Linker.Relocate.{relocate_all}
use fyra.Linker.Errors.{Result, ok, err, no_input, incompatible_target, ◌>>=◌}

unfoldable pub compatible : ObjectArtifact → List ObjectArtifact → Bool
compatible first [] = true
compatible first (art ∷ arts) =
    (same_arch art.arch first.arch && same_os art.os first.os) && compatible first arts

abbrev pub base_vma : Os → ℕ
base_vma os = if same_os os windows then 0x140000000 else 0x400000

abbrev pub placed_of : Os → Layout → Placed
placed_of os l = record { base_vma = base_vma os; sections = l.sections; placements = l.placements }

-- The image between the resolution of symbols and the entry stub. The default entry name is "main".
abbrev pub image_of : ObjectArtifact → LinkOutputKind → Layout → LinkedImage
image_of first kind l = record {
  arch = first.arch;
  os = first.os;
  output_kind = kind;
  sections = l.sections;
  symbols = [];
  relocation_fixup_vmas = [];
  import_thunk_vmas = [];
  import_library_names = [];
  data_import_fixups = [];
  entry_address = 0;
  entry_symbol_name = "main";
}

unfoldable pub link_placed :
    ObjectArtifact
    → List ObjectArtifact
    → LinkOutputKind
    → List DynamicImport
    → Layout
    → Result LinkedImage
unfolding resolve_symbols add_start set_entry relocate_all
link_placed first arts kind imports l = do
  symbols ← resolve_symbols (placed_of first.os l) 0 arts []
  let image = set_entry (add_start (record (image_of first kind l) { symbols = symbols }))
  relocate_all l.placements imports 0 arts image

unfoldable pub link : List ObjectArtifact → LinkOutputKind → List DynamicImport → Result LinkedImage
unfolding compatible layout link_placed
link [] kind imports = err no_input
link (first ∷ rest) kind imports =
    if compatible first rest
    then link_placed first (first ∷ rest) kind imports (layout (base_vma first.os) (first ∷ rest))
    else err incompatible_target
