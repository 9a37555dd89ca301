-- ===== src/Linker/Layout/Addresses.antt =====
-- The loaded output sections (.text, .rodata, .data, .bss) lie one behind the other in memory.
use fyra.Prelude.{
  ℕ, ◌+◌, ◌%◌, ◌^◌, ◌≤◌, ◌≡◌, refl, sym, ap, ◌∙◌, arith, ◌⊎◌, inl, inr, String, true, false, some,
  List, [], ◌∷◌, ◌==◌, Bool-cases, if◌then◌else◌,
}
use native.Mathlib.Nat.{mod-eq_of_lt}
use fyra.Prelude.Texts.{lookup, insert, lookup-insert, eq_iff}
use fyra.Prelude.Texts.{◌==◌ as str_eq}
use fyra.Word.{add64, align_up, align_up_bounds}
use fyra.Object.{ObjectArtifact}
use fyra.Linker.Image.{LinkedSection}
use fyra.Linker.Layout.Place.{
  Merge, Layout, is_loaded, output_section, page_align, place_artifacts, finish_section,
  layout_section, layout_sections, ordered_sections, layout,
}

abbrev pub end_of : LinkedSection → ℕ
end_of s = s.virtual_address + s.virtual_size

-- Every loaded section ends before the next free address, and no two overlap.
pub record Arranged (l : Layout) : Type 0 where
  pub below :
      (k : String) (s : LinkedSection)
      → is_loaded k ≡ true
      → lookup k l.sections ≡ some s
      → end_of s ≤ l.current_vma
  pub apart :
      (j k : String) (s t : LinkedSection)
      → is_loaded j ≡ true
      → is_loaded k ≡ true
      → str_eq j k ≡ false
      → lookup j l.sections ≡ some s
      → lookup k l.sections ≡ some t
      → (end_of s ≤ t.virtual_address) ⊎ (end_of t ≤ s.virtual_address)

-- The addresses of a merge of `size` bytes from `vma` stay below 2 ^ 64, the next page included.
abbrev pub FitsFrom : ℕ → ℕ → Type 0
FitsFrom vma size = vma + size + 0x1000 ≤ 2 ^ 64

next_page : (vma size : ℕ) → FitsFrom vma size → vma + size ≤ align_up (add64 vma size) page_align
next_page vma size h =
    let small : (vma + size) % 2 ^ 64 ≡ vma + size = mod-eq_of_lt (omega arith) in
    rw small (align_up_bounds (vma + size) 52 12 refl h).0

module _ (name : String) (m : Merge) (l : Layout) (fits : FitsFrom l.current_vma m.offset)
    (arranged : Arranged l) where
  -- What a name finds after the insertion: the new section, or one that was there.
  found_after :
      (k : String) (s : LinkedSection)
      → lookup k (insert name (output_section name l.current_vma m.offset m.bytes) l.sections)
        ≡ some s
      → ((name ≡ k) × (s.virtual_address ≡ l.current_vma) × (s.virtual_size ≡ m.offset))
        ⊎ ((str_eq name k ≡ false) × (lookup k l.sections ≡ some s))
  unfolding output_section
  found_after k s h =
      let e =
        sym (lookup-insert name k (output_section name l.current_vma m.offset m.bytes) l.sections)
        ∙ h in
      elim (Bool-cases (str_eq name k)) [
        | inl same ↦
            let new : output_section name l.current_vma m.offset m.bytes ≡ s = cc (rw same at e) in
            inl (
              (eq_iff name k).0 same,
              sym (ap (λ t. t.virtual_address) new),
              sym (ap (λ t. t.virtual_size) new),
            )
        | inr other ↦ inr (other, rw other at e)
      ]

  -- The next free address after the insertion.
  vma_after : ℕ
  vma_after =
      if is_loaded name then align_up (add64 l.current_vma m.offset) page_align else l.current_vma

  vma_grows : l.current_vma ≤ vma_after
  unfolding vma_after
  vma_grows = ground (arith, next_page l.current_vma m.offset fits)

  new_below : is_loaded name ≡ true → l.current_vma + m.offset ≤ vma_after
  unfolding vma_after
  new_below h = rw h (next_page l.current_vma m.offset fits)

  inserted-Arranged : Arranged (record {
    current_vma = vma_after;
    sections = insert name (output_section name l.current_vma m.offset m.bytes) l.sections;
    placements = m.placements;
  })
  inserted-Arranged = record {
    below = λ k s lk h. elim (found_after k s h) [
      | inl (e, v, z) ↦ omega (arith, v, z, new_below (rw e lk))
      | inr (ne, old) ↦ omega (arith, arranged.below k s lk old, vma_grows)
    ];
    apart = λ j k s t lj lk ne h g. elim (found_after j s h) [
      | inl (e, v, z) ↦ elim (found_after k t g) [
        | inl (e', v', z') ↦
            absurd (let f : true ≡ false = sym ((eq_iff j k).1 (sym e ∙ e')) ∙ ne in cc)
        | inr (ne', old') ↦ inr (omega (arith, v, arranged.below k t lk old'))
      ]
      | inr (ne1, old) ↦ elim (found_after k t g) [
        | inl (e', v', z') ↦ inl (omega (arith, v', arranged.below j s lj old))
        | inr (ne', old') ↦ arranged.apart j k s t lj lk ne old old'
      ]
    ];
  }

  finish_section-Arranged : Arranged (finish_section name m l)
  unfolding finish_section vma_after
  finish_section-Arranged = elim (Bool-cases (m.offset == 0)) [
    | inl nothing ↦ rw nothing (record { below = arranged.below; apart = arranged.apart })
    | inr something ↦ rw something inserted-Arranged
  ]

-- Along the loop over the names every address fits 64 bits.
abbrev pub AddressesFit : List ObjectArtifact → List String → Layout → Type 0
AddressesFit arts [] l = Unit
AddressesFit arts (name ∷ names) l =
    FitsFrom l.current_vma
      (place_artifacts name 0 arts
        (record { offset = 0; bytes = []; placements = l.placements })).offset
    × AddressesFit arts names (layout_section arts name l)

layout_sections-Arranged :
    (arts : List ObjectArtifact) (names : List String) (l : Layout)
    → AddressesFit arts names l
    → Arranged l
    → Arranged (layout_sections arts names l)
unfolding layout_sections layout_section
layout_sections-Arranged arts [] l fits a = a
layout_sections-Arranged arts (name ∷ names) l (fits, rest) a =
    layout_sections-Arranged arts names (layout_section arts name l) rest (
      finish_section-Arranged name
        (place_artifacts name 0 arts (record { offset = 0; bytes = []; placements = l.placements }))
        l fits a)

abbrev pub first_layout : ℕ → Layout
first_layout base_vma = record {
  current_vma = add64 base_vma page_align;
  sections = [];
  placements = [];
}

-- Where the addresses fit 64 bits, the loaded sections of a layout do not overlap, and all of them
-- end before the address that would come next.
pub layout-Arranged :
    (base_vma : ℕ) (arts : List ObjectArtifact)
    → AddressesFit arts ordered_sections (first_layout base_vma)
    → Arranged (layout base_vma arts)
unfolding layout
layout-Arranged base_vma arts fits =
    layout_sections-Arranged arts ordered_sections (first_layout base_vma) fits (
      unfold lookup in
      record { below = λ k s lk h. absurd (cc); apart = λ j k s t lj lk ne h g. absurd (cc) })
