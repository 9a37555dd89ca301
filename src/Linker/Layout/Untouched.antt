-- ===== src/Linker/Layout/Untouched.antt =====
-- What is merged for one name is not touched by the names that come before and after it.
use fyra.Prelude.{
  ℕ, suc, ◌+◌, ◌*◌, ◌≤◌, ◌≡◌, refl, sym, ap, ◌∙◌, arith, String, true, false, Option, none, some,
  List, [], ◌∷◌, ◌++◌, inl, inr, Bool-cases, length, take, drop, append-nil, append_assoc, All,
}
use fyra.Prelude.Texts.{lookup, lookup-insert}
use fyra.Prelude.Texts.{◌==◌ as str_eq}
use fyra.Object.{ObjectArtifact, ObjectSection, find_section}
use fyra.Linker.Image.{LinkedSection}
use fyra.Linker.Layout.Place.{
  SectionPlacement, Merge, Layout, offset_in_output, has_nothing, place_section, place_found,
  place_artifacts, output_section, finish_section, layout_section, layout_sections,
}
use fyra.Linker.Layout.Matches.{has_placement, has_placement-append, offset_in_output-append}

-- In the layout `l`, the output section of the name holds `xs` at the artifact's placement.
pub record StandsIn (name : String) (index align : ℕ) (xs : List ℕ) (l : Layout) : Type 0 where
  pub section : LinkedSection
  pub found : lookup name l.sections ≡ some section
  pub placed : has_placement l.placements index name ≡ true
  pub within : offset_in_output l.placements index name + length xs ≤ length section.bytes
  pub contents :
      take (length xs) (drop (offset_in_output l.placements index name) section.bytes) ≡ xs
  pub quotient : ℕ
  pub aligned : offset_in_output l.placements index name ≡ quotient * align

-- Merging another name adds placements of that name only.
record Adds (name : String) (ps qs : List SectionPlacement) : Type 0 where
  more : List SectionPlacement
  grown : qs ≡ ps ++ more
  foreign :
      (other : String) (j : ℕ) → str_eq name other ≡ false → has_placement more j other ≡ false

Adds-refl : (name : String) (ps : List SectionPlacement) → Adds name ps ps
unfolding has_placement
Adds-refl name ps = record { more = []; grown = sym (append-nil ps); foreign = λ other j h. refl }

Adds-trans :
    (name : String) (ps qs rs : List SectionPlacement)
    → Adds name ps qs
    → Adds name qs rs
    → Adds name ps rs
Adds-trans name ps qs rs g h = record {
  more = g.more ++ h.more;
  grown = h.grown ∙ ap (λ t. t ++ h.more) g.grown ∙ append_assoc ps g.more h.more;
  foreign = λ other j ne.
      rw (has_placement-append g.more h.more j other, g.foreign other j ne) (h.foreign other j ne);
}

place_found-Adds :
    (name : String) (index : ℕ) (o : Option ObjectSection) (m : Merge)
    → Adds name m.placements (place_found name index o m).placements
unfolding place_found place_section has_placement
place_found-Adds name index none m = Adds-refl name m.placements
place_found-Adds name index (some sec) m = elim (Bool-cases (has_nothing sec)) [
  | inl nothing ↦ rw nothing (Adds-refl name m.placements)
  | inr something ↦
      rw something (record { more = _; grown = refl; foreign = λ other j ne. rw ne (ground arith) })
]

place_artifacts-Adds :
    (name : String) (index : ℕ) (arts : List ObjectArtifact) (m : Merge)
    → Adds name m.placements (place_artifacts name index arts m).placements
unfolding place_artifacts
place_artifacts-Adds name index [] m = Adds-refl name m.placements
place_artifacts-Adds name index (art ∷ arts) m =
    let m1 = place_found name index (find_section art name) m in
    Adds-trans name _ _ _ (place_found-Adds name index (find_section art name) m)
      (place_artifacts-Adds name (suc index) arts m1)

-- The merge that `layout_section` finishes.
abbrev pub merged : List ObjectArtifact → String → Layout → Merge
merged arts name l =
    place_artifacts name 0 arts (record { offset = 0; bytes = []; placements = l.placements })

pub finish_section-placements :
    (name : String) (m : Merge) (l : Layout) → (finish_section name m l).placements ≡ m.placements
unfolding finish_section
finish_section-placements name m l = ground arith

layout_section-Adds :
    (arts : List ObjectArtifact) (name : String) (l : Layout)
    → Adds name l.placements (layout_section arts name l).placements
unfolding layout_section
layout_section-Adds arts name l = rw (finish_section-placements name (merged arts name l) l) (
    place_artifacts-Adds name 0 arts (record { offset = 0; bytes = []; placements = l.placements }))

layout_section-lookup_ne :
    (arts : List ObjectArtifact) (name other : String) (l : Layout)
    → str_eq name other ≡ false
    → lookup other (layout_section arts name l).sections ≡ lookup other l.sections
unfolding layout_section finish_section
layout_section-lookup_ne arts name other l ne = ground (
  arith,
  lookup-insert name other
      (output_section name l.current_vma (merged arts name l).offset (merged arts name l).bytes)
      l.sections,
)

layout_section-StandsIn :
    (arts : List ObjectArtifact) (other name : String) (index align : ℕ) (xs : List ℕ) (l : Layout)
    → str_eq other name ≡ false
    → StandsIn name index align xs l
    → StandsIn name index align xs (layout_section arts other l)
layout_section-StandsIn arts other name index align xs l ne s =
    let l' = layout_section arts other l in
    let a = layout_section-Adds arts other l in
    let same : offset_in_output l'.placements index name
        ≡ offset_in_output l.placements index name =
      rw (a.grown, offset_in_output-append l.placements a.more index name, s.placed) refl in
    record {
      section = s.section;
      found = layout_section-lookup_ne arts other name l ne ∙ s.found;
      placed = rw (a.grown, has_placement-append l.placements a.more index name, s.placed);
      within = rw same s.within;
      contents = rw same s.contents;
      quotient = s.quotient;
      aligned = same ∙ s.aligned;
    }

-- None of the names is the given one.
abbrev pub Differ : String → List String → Type 0
Differ name = All (λ other. str_eq other name ≡ false)

pub layout_sections-StandsIn :
    (arts : List ObjectArtifact) (others : List String) (name : String) (index align : ℕ)
    (xs : List ℕ) (l : Layout)
    → Differ name others
    → StandsIn name index align xs l
    → StandsIn name index align xs (layout_sections arts others l)
unfolding layout_sections
layout_sections-StandsIn arts [] name index align xs l d s = s
layout_sections-StandsIn arts (other ∷ others) name index align xs l (ne, d) s =
    layout_sections-StandsIn arts others name index align xs (layout_section arts other l) d
      (layout_section-StandsIn arts other name index align xs l ne s)

abbrev pub Fresh : String → Layout → Type 0
Fresh name l = (j : ℕ) → has_placement l.placements j name ≡ false

layout_section-Fresh :
    (arts : List ObjectArtifact) (other name : String) (l : Layout)
    → str_eq other name ≡ false
    → Fresh name l
    → Fresh name (layout_section arts other l)
layout_section-Fresh arts other name l ne f j =
    let a = layout_section-Adds arts other l in
    rw (a.grown, has_placement-append l.placements a.more j name, f j) (a.foreign name j ne)

pub layout_sections-Fresh :
    (arts : List ObjectArtifact) (others : List String) (name : String) (l : Layout)
    → Differ name others
    → Fresh name l
    → Fresh name (layout_sections arts others l)
unfolding layout_sections
layout_sections-Fresh arts [] name l d f = f
layout_sections-Fresh arts (other ∷ others) name l (ne, d) f =
    layout_sections-Fresh arts others name (layout_section arts other l) d
      (layout_section-Fresh arts other name l ne f)

pub layout_sections-append :
    (arts : List ObjectArtifact) (xs ys : List String) (l : Layout)
    → layout_sections arts (xs ++ ys) l ≡ layout_sections arts ys (layout_sections arts xs l)
unfolding layout_sections
layout_sections-append arts [] ys l = refl
layout_sections-append arts (x ∷ xs) ys l =
    layout_sections-append arts xs ys (layout_section arts x l)
