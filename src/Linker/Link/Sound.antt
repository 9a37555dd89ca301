-- ===== src/Linker/Link/Sound.antt =====
-- A link that succeeds: what the image holds of the symbols and sections that were placed, and where
-- it starts.
use fyra.Prelude.{
  ℕ, ◌≡◌, refl, ◌∙◌, inl, inr, String, true, none, some, List, [], ◌∷◌, All, Bool-cases,
  Option-cases, length, arith,
}
use native.Mathlib.Nat.{le_trans}
use fyra.Prelude.Texts.{StringMap, lookup}
use fyra.Word.{add64}
use fyra.Object.{ObjectArtifact}
use fyra.Linker.Image.{
  LinkedImage, LinkedSection, LinkedSymbol, LinkOutputKind, DynamicImport, find_section,
}
use fyra.Linker.Layout.{layout}
use fyra.Linker.Symbols.{resolve_symbols}
use fyra.Linker.Symbols.Listed.{linked_symbols, AllFound}
use fyra.Linker.Symbols.Unique.{resolve_symbols-AllFound}
use fyra.Linker.Entry.{
  add_start, add_stub, has_bytes, start_bytes, set_entry, main_symbol, wants_stub,
}
use fyra.Linker.Relocate.Extends.{
  Extends, SectionKept, Extends-refl, append_to_text-Extends, relocate_all-Extends,
}
use fyra.Linker.Errors.{ok, >>=-eq-ok}
use fyra.Linker.Link.{base_vma, placed_of, image_of, link_placed, link, compatible}

no_start : (image : LinkedImage) → wants_stub image ≡ true → lookup "_start" image.symbols ≡ none
no_start image h = ground (arith, Option-cases (lookup "_start" image.symbols))

add_stub-Extends :
    (image : LinkedImage) (main : LinkedSymbol) (text : LinkedSection)
    → lookup ".text" image.sections ≡ some text
    → lookup "_start" image.symbols ≡ none
    → Extends image (add_stub image main text)
unfolding add_stub
add_stub-Extends image main text found absent =
    elim (Bool-cases (
      has_bytes (
        start_bytes image.arch main.virtual_address
          (add64 text.virtual_address (length text.bytes))))) [
            | inl given ↦ rw given (append_to_text-Extends image text _ _ found absent)
            | inr empty ↦ rw empty (Extends-refl image)
          ]

-- The stub moves nothing.
add_start-Extends : (image : LinkedImage) → Extends image (add_start image)
unfolding add_start
add_start-Extends image = elim (Bool-cases (wants_stub image)) [
  | inr keep ↦ rw keep (Extends-refl image)
  | inl stub ↦ rw stub (elim (Option-cases (main_symbol image)) [
    | inl e ↦ rw e (Extends-refl image)
    | inr (main, e) ↦ rw e (elim (Option-cases (find_section image ".text")) [
      | inl e' ↦ rw e' (Extends-refl image)
      | inr (text, e') ↦ rw e' (add_stub-Extends image main text e' (no_start image stub))
    ])
  ])
]

set_entry-symbols : (image : LinkedImage) → (set_entry image).symbols ≡ image.symbols
unfolding set_entry
set_entry-symbols image = elim (Option-cases (lookup "_start" image.symbols)) [
  | inr (start, e) ↦ rw (set_entry, e) refl
  | inl e ↦
      rw (set_entry, e)
        (elim (Option-cases (lookup "main" image.symbols)) [
          | inr (main, e') ↦ rw e' refl
          | inl e' ↦ rw e' refl
        ])
]

set_entry-sections : (image : LinkedImage) → (set_entry image).sections ≡ image.sections
unfolding set_entry
set_entry-sections image = elim (Option-cases (lookup "_start" image.symbols)) [
  | inr (start, e) ↦ rw (set_entry, e) refl
  | inl e ↦
      rw (set_entry, e)
        (elim (Option-cases (lookup "main" image.symbols)) [
          | inr (main, e') ↦ rw e' refl
          | inl e' ↦ rw e' refl
        ])
]

set_entry-start :
    (image : LinkedImage) (s : LinkedSymbol)
    → lookup "_start" image.symbols ≡ some s
    → (set_entry image).entry_address ≡ s.virtual_address
unfolding set_entry
set_entry-start image s h = rw (set_entry, h) refl

-- What a linked image holds.
pub record Linked (first : ObjectArtifact) (arts : List ObjectArtifact) (image : LinkedImage)
    : Type 0 where
  pub symbols :
      AllFound image.symbols
        (linked_symbols (placed_of first.os (layout (base_vma first.os) arts)) 0 arts)
  pub sections :
      (name : String) (s : LinkedSection)
      → lookup name (layout (base_vma first.os) arts).sections ≡ some s
      → SectionKept name s image.sections
  pub entry :
      All
        (λ s. s.is_global ≡ true → s.name ≡ "_start" → image.entry_address ≡ s.virtual_address)
        (linked_symbols (placed_of first.os (layout (base_vma first.os) arts)) 0 arts)

-- The symbols that the link resolved stay found.
still_found :
    (ss : List LinkedSymbol) (m : StringMap LinkedSymbol) (image : LinkedImage)
    → ((name : String) (s : LinkedSymbol)
        → lookup name m ≡ some s
        → lookup name image.symbols ≡ some s)
    → AllFound m ss
    → AllFound image.symbols ss
still_found [] m image keep all = tt
still_found (s ∷ ss) m image keep (found, rest) =
    (λ g. keep s.name s (found g), still_found ss m image keep rest)

starts_there :
    (ss : List LinkedSymbol) (m : StringMap LinkedSymbol) (entry : ℕ)
    → ((s : LinkedSymbol) → lookup "_start" m ≡ some s → entry ≡ s.virtual_address)
    → AllFound m ss
    → All (λ s. s.is_global ≡ true → s.name ≡ "_start" → entry ≡ s.virtual_address) ss
starts_there [] m entry at_start all = tt
starts_there (s ∷ ss) m entry at_start (found, rest) =
    (λ g e. at_start s (rw (← e) (found g)), starts_there ss m entry at_start rest)

link_placed-Linked :
    (first : ObjectArtifact) (arts : List ObjectArtifact) (kind : LinkOutputKind)
    (imports : List DynamicImport) {image : LinkedImage}
    → link_placed first arts kind imports (layout (base_vma first.os) arts) ≡ ok image
    → Linked first arts image
unfolding link_placed
link_placed-Linked first arts kind imports {image} h =
    let l = layout (base_vma first.os) arts in
    let (m, e, rest) = >>=-eq-ok (resolve_symbols (placed_of first.os l) 0 arts []) _ h in
    let found = resolve_symbols-AllFound (placed_of first.os l) arts e in
    let before = record (image_of first kind l) { symbols = m } in
    let start = add_start-Extends before in
    let image0 = set_entry (add_start before) in
    let kept = relocate_all-Extends l.placements imports 0 arts image0 rest in
    let all =
      still_found (linked_symbols (placed_of first.os l) 0 arts) m (add_start before) start.symbols
        found in
    record {
      symbols =
          still_found (linked_symbols (placed_of first.os l) 0 arts) (add_start before).symbols
            image (λ name s q. kept.symbols name s (rw (set_entry-symbols (add_start before)) q))
            all;
      sections = λ name s q.
          let (t, p, v, n) = start.sections name s q in
          let (u, p', v', n') =
            kept.sections name t (rw (set_entry-sections (add_start before)) p) in
          (u, p', v' ∙ v, le_trans n n');
      entry =
          starts_there (linked_symbols (placed_of first.os l) 0 arts) (add_start before).symbols
            image.entry_address (λ s q. kept.entry ∙ set_entry-start (add_start before) s q) all;
    }

-- A link that succeeds had artifacts of one architecture and system; its image holds every defined
-- global symbol under its name at the address the layout gave it, every section of the layout at its
-- address with at least its bytes, and starts at `_start` where an artifact defines it.
pub link-Linked :
    (first : ObjectArtifact) (rest : List ObjectArtifact) (kind : LinkOutputKind)
    (imports : List DynamicImport) {image : LinkedImage}
    → link (first ∷ rest) kind imports ≡ ok image
    → (compatible first rest ≡ true) × Linked first (first ∷ rest) image
unfolding link
link-Linked first rest kind imports {image} h = elim (Bool-cases (compatible first rest)) [
  | inl same ↦ (same, link_placed-Linked first (first ∷ rest) kind imports (rw same at h))
  | inr other ↦ absurd (let f = rw other at h in cc)
]
