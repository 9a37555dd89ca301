-- ===== src/Linker/Layout/Place.antt =====
-- InternalLinker::link, the merging of sections: each output section holds the input sections of its
-- name one after the other, each at its alignment, and the loaded ones follow one another in memory.
use fyra.Prelude.{
  ℕ, suc, ◌-◌, String, Bool, true, false, ◌&&◌, ◌||◌, Option, none, some, List, [], ◌∷◌, ◌++◌, ◌==◌,
  ltb, length, replicate, if◌then◌else◌,
}
use fyra.Prelude.Texts.{StringMap, insert}
use fyra.Prelude.Texts.{◌==◌ as str_eq}
use fyra.Word.{add64, align_up}
use fyra.Object.{ObjectArtifact, ObjectSection, find_section}
use fyra.Linker.Image.{LinkedSection}

pub record SectionPlacement : Type 0 where
  pub artifact_index : ℕ
  pub section_name : String
  pub output_offset : ℕ
  pub size : ℕ

-- The offset of an artifact's section in its output section: that of the first placement that fits,
-- or 0.
unfoldable pub offset_in_output : List SectionPlacement → ℕ → String → ℕ
offset_in_output [] index name = 0
offset_in_output (p ∷ ps) index name =
    if p.artifact_index == index && str_eq p.section_name name
    then p.output_offset
    else offset_in_output ps index name

-- One output section while the artifacts are visited: `currentOffset` and `lsec.data`.
pub record Merge : Type 0 where
  pub offset : ℕ
  pub bytes : List ℕ
  pub placements : List SectionPlacement

abbrev pub is_empty : List ℕ → Bool
is_empty [] = true
is_empty (b ∷ bs) = false

-- `sec->data.empty() && sec->virtualSize == 0`
abbrev pub has_nothing : ObjectSection → Bool
has_nothing sec = is_empty sec.bytes && sec.virtual_size == 0

abbrev pub section_alignment : ObjectSection → ℕ
section_alignment sec = if sec.alignment == 0 then 16 else sec.alignment

abbrev pub is_bss : String → Bool
is_bss name = str_eq name ".bss"

abbrev pub placed_size : String → ObjectSection → ℕ
placed_size name sec = if is_bss name then sec.virtual_size else length sec.bytes

-- `lsec.data.resize(offset, 0)` where that is longer
unfoldable pub pad_to : ℕ → List ℕ → List ℕ
pad_to offset bytes =
    if ltb (length bytes) offset then bytes ++ replicate (offset - length bytes) 0 else bytes

unfoldable pub place_section : String → ℕ → ObjectSection → Merge → Merge
unfolding pad_to
place_section name index sec m =
    let start = align_up m.offset (section_alignment sec) in
    record {
      offset = add64 start (placed_size name sec);
      bytes = if is_bss name then m.bytes else pad_to start m.bytes ++ sec.bytes;
      placements =
          m.placements
          ++ (record {
            artifact_index = index;
            section_name = name;
            output_offset = start;
            size = placed_size name sec;
          }
              ∷ []);
    }

unfoldable pub place_found : String → ℕ → Option ObjectSection → Merge → Merge
unfolding place_section
place_found name index none m = m
place_found name index (some sec) m = if has_nothing sec then m else place_section name index sec m

-- The loop over the artifacts; `index` counts them.
unfoldable pub place_artifacts : String → ℕ → List ObjectArtifact → Merge → Merge
unfolding place_found find_section
place_artifacts name index [] m = m
place_artifacts name index (art ∷ arts) m =
    place_artifacts name (suc index) arts (place_found name index (find_section art name) m)

-- The layout while the section names are visited.
pub record Layout : Type 0 where
  pub current_vma : ℕ
  pub sections : StringMap LinkedSection
  pub placements : List SectionPlacement

abbrev pub is_loaded : String → Bool
is_loaded name =
    str_eq name ".text" || (str_eq name ".rodata" || (str_eq name ".data" || str_eq name ".bss"))

abbrev pub page_align : ℕ
page_align = 0x1000

-- The output section of a name at an address, with the permissions of its kind.
unfoldable pub output_section : String → ℕ → ℕ → List ℕ → LinkedSection
output_section name vma size bytes = record {
  name = name;
  bytes = bytes;
  virtual_address = vma;
  virtual_size = size;
  alignment = 16;
  is_executable = str_eq name ".text";
  is_writable = str_eq name ".data" || str_eq name ".bss";
  is_readable = is_loaded name;
}

unfoldable pub finish_section : String → Merge → Layout → Layout
unfolding output_section
finish_section name m l = if m.offset == 0 then record l { placements = m.placements } else record {
  current_vma =
      if is_loaded name then align_up (add64 l.current_vma m.offset) page_align else l.current_vma;
  sections = insert name (output_section name l.current_vma m.offset m.bytes) l.sections;
  placements = m.placements;
}

unfoldable pub layout_section : List ObjectArtifact → String → Layout → Layout
unfolding place_artifacts finish_section
layout_section arts name l =
    finish_section name
      (place_artifacts name 0 arts (record { offset = 0; bytes = []; placements = l.placements })) l

unfoldable pub layout_sections : List ObjectArtifact → List String → Layout → Layout
unfolding layout_section
layout_sections arts [] l = l
layout_sections arts (name ∷ names) l = layout_sections arts names (layout_section arts name l)

abbrev pub ordered_sections : List String
ordered_sections =
    ".text" ∷ ".rodata" ∷ ".data" ∷ ".bss" ∷ ".debug_info" ∷ ".debug_abbrev" ∷ ".debug_line"
    ∷ ".debug_str" ∷ ".debug_frame" ∷ ".eh_frame" ∷ []

unfoldable pub layout : ℕ → List ObjectArtifact → Layout
unfolding layout_sections
layout base_vma arts =
    layout_sections arts ordered_sections
      (record { current_vma = add64 base_vma page_align; sections = []; placements = [] })
