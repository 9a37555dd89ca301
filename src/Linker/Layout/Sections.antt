-- ===== src/Linker/Layout/Sections.antt =====
-- The layout as a whole keeps every input section.
use fyra.Prelude.{
  ℕ, zero, suc, ◌+◌, ◌^◌, ◌<◌, ◌≡◌, refl, sym, ◌∙◌, arith, String, true, false, some, List, [], ◌∷◌,
  ◌++◌, ◌==◌, inl, inr, Bool-cases, length, get_elem?, ◌&&◌,
}
use mathlib.Core.Path.{subst}
use fyra.Prelude.Texts.{lookup-insert, eq_refl}
use fyra.Word.{add64}
use fyra.Object.{ObjectArtifact, ObjectSection, find_section}
use fyra.Linker.Layout.Place.{
  Merge, Layout, is_empty, has_nothing, section_alignment, is_bss, output_section, finish_section,
  layout_section, layout_sections, ordered_sections, page_align, layout,
}
use fyra.Linker.Layout.Matches.{has_placement}
use fyra.Linker.Layout.Stands.{Stands, Ready, AlignedInput, room}
use fyra.Linker.Layout.Contents.{AllStand, StandsFor, place_artifacts_stand}
use fyra.Linker.Layout.Untouched.{
  StandsIn, merged, finish_section-placements, Differ, layout_sections-StandsIn, Fresh,
  layout_sections-Fresh, layout_sections-append,
}

finish_section-StandsIn :
    (name : String) (index align : ℕ) (xs : List ℕ) (m : Merge) (l : Layout)
    → 0 < length xs
    → length m.bytes ≡ m.offset
    → Stands name index align xs m
    → StandsIn name index align xs (finish_section name m l)
unfolding finish_section output_section
finish_section-StandsIn name index align xs m l some_bytes filled s =
    let nonzero : (m.offset == 0) ≡ false = ground (arith, s.within) in
    let p = finish_section-placements name m l in
    record {
      section = output_section name l.current_vma m.offset m.bytes;
      found = rw nonzero (
          lookup-insert name name (output_section name l.current_vma m.offset m.bytes) l.sections
          ∙ rw (eq_refl name));
      placed = rw p s.placed;
      within = rw p s.within;
      contents = rw p s.contents;
      quotient = s.quotient;
      aligned = rw p s.aligned;
    }

-- The section of the artifact at position `k` of the list.
AllStand-get :
    (name : String) (i : ℕ) (arts : List ObjectArtifact) (m : Merge) (k : ℕ) (art : ObjectArtifact)
    → AllStand name i arts m
    → get_elem? arts k ≡ some art
    → StandsFor name (i + k) (find_section art name) m
AllStand-get name i [] m k art all e = absurd (cc)
AllStand-get name i (a ∷ arts) m zero art all e =
    let same : a ≡ art = cc in let index : i + zero ≡ i = omega arith in rw (index, ← same) all.0
AllStand-get name i (a ∷ arts) m (suc k) art all e =
    let index : i + suc k ≡ suc i + k = omega arith in
    rw index (AllStand-get name (suc i) arts m k art all.1 e)

has_bytes : (sec : ObjectSection) → 0 < length sec.bytes → has_nothing sec ≡ false
has_bytes sec h = elim (Bool-cases (has_nothing sec)) [
  | inl nothing ↦ absurd (empty sec.bytes h nothing)
  | inr something ↦ something
]
  where
    empty : (bs : List ℕ) → 0 < length bs → (is_empty bs && sec.virtual_size == 0) ≡ true → ⊥
    empty [] p q = omega arith
    empty (b ∷ bs) p q = cc

merged-Stands :
    (arts : List ObjectArtifact) (name : String) (index : ℕ) (art : ObjectArtifact)
    (sec : ObjectSection) (l : Layout)
    → is_bss name ≡ false
    → AlignedInput name arts
    → room name arts < 2 ^ 64
    → get_elem? arts index ≡ some art
    → find_section art name ≡ some sec
    → 0 < length sec.bytes
    → Fresh name l
    → Stands name index (section_alignment sec) sec.bytes (merged arts name l)
      × (length (merged arts name l).bytes ≡ (merged arts name l).offset)
merged-Stands arts name index art sec l plain two fits e f some_bytes fresh =
    let m0 : Merge = record { offset = 0; bytes = []; placements = l.placements } in
    let ready : Ready name 0 m0 = record { filled = refl; fresh = λ j h. fresh j } in
    let (all, grows, filled) = place_artifacts_stand name 0 arts m0 plain two (omega arith) ready in
    let here : StandsFor name (0 + index) (find_section art name) (merged arts name l) =
      AllStand-get name 0 arts (merged arts name l) index art all e in
    let zero_index : 0 + index ≡ index = omega arith in
    let stands : StandsFor name index (some sec) (merged arts name l) =
      rw (f, zero_index) at here in
    (stands (has_bytes sec some_bytes), filled)

layout_sections-Stands :
    (arts : List ObjectArtifact) (name : String) (before after : List String) (index : ℕ)
    (art : ObjectArtifact) (sec : ObjectSection) (l : Layout)
    → Differ name before
    → Differ name after
    → is_bss name ≡ false
    → AlignedInput name arts
    → room name arts < 2 ^ 64
    → get_elem? arts index ≡ some art
    → find_section art name ≡ some sec
    → 0 < length sec.bytes
    → Fresh name l
    → StandsIn name index
        (section_alignment sec)
        sec.bytes
        (layout_sections arts (before ++ (name ∷ after)) l)
unfolding layout_sections layout_section
layout_sections-Stands arts name before after index art sec l d d' plain two fits e f some_bytes
      fresh =
    let l1 = layout_sections arts before l in
    let (stands, filled) =
      merged-Stands arts name index art sec l1 plain two fits e f some_bytes
        (layout_sections-Fresh arts before name l d fresh) in
    rw (layout_sections-append arts before (name ∷ after) l) (
      layout_sections-StandsIn arts after name index (section_alignment sec) sec.bytes
        (layout_section arts name l1) d'
        (finish_section-StandsIn name index (section_alignment sec) sec.bytes (merged arts name l1)
          l1 some_bytes filled stands))

-- Every input section with bytes, of a name that the linker merges other than .bss, stands whole
-- and aligned in the output section of its name, at the placement that symbols and relocations of
-- its artifact are rebased by; where the alignments of that name are powers of two, and the
-- alignments and sizes together fit 64 bits.
pub layout-StandsIn :
    (base_vma : ℕ) (arts : List ObjectArtifact) (name : String) (before after : List String)
    (index : ℕ) (art : ObjectArtifact) (sec : ObjectSection)
    → ordered_sections ≡ before ++ (name ∷ after)
    → Differ name before
    → Differ name after
    → is_bss name ≡ false
    → AlignedInput name arts
    → room name arts < 2 ^ 64
    → get_elem? arts index ≡ some art
    → find_section art name ≡ some sec
    → 0 < length sec.bytes
    → StandsIn name index (section_alignment sec) sec.bytes (layout base_vma arts)
unfolding layout has_placement
layout-StandsIn base_vma arts name before after index art sec names d d' plain two fits e f
      some_bytes =
    let l0 : Layout = record {
      current_vma = add64 base_vma page_align;
      sections = [];
      placements = [];
    } in
    subst (λ ns. StandsIn name index (section_alignment sec) sec.bytes (layout_sections arts ns l0))
      (sym names)
      (layout_sections-Stands arts name before after index art sec l0 d d' plain two fits e f
        some_bytes (λ j. refl))
