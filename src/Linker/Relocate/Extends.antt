-- ===== src/Linker/Relocate/Extends.antt =====
-- Relocating an image only extends it: no symbol moves, no section moves or shrinks, and the entry
-- stays. So the addresses that earlier relocations were computed from stay right.
use fyra.Prelude.{
  ℕ, suc, ◌+◌, ◌≤◌, ◌≡◌, refl, ◌∙◌, arith, inl, inr, String, true, false, Option, none, some, List,
  [], ◌∷◌, ◌++◌, Bool-cases, Option-cases, length, length-append,
}
use native.Mathlib.Nat.{le_refl, le_trans}
use fyra.Prelude.Texts.{StringMap, lookup, insert, lookup-insert, eq_iff}
use fyra.Prelude.Texts.{◌==◌ as str_eq}
use fyra.Word.{add64}
use fyra.Object.{ObjectArtifact, ObjectRelocation}
use fyra.Relocation.{
  RelocationKind, Evaluated, patched, failed, normalize_type, evaluate, import_thunk_bytes,
}
use fyra.Relocation.Writes.{evaluate-AgreeOutside}
use fyra.Linker.Image.{
  LinkedImage, LinkedSection, LinkedSymbol, DynamicImport, DataImportFixup, find_section,
  find_symbol,
}
use fyra.Linker.Layout.{SectionPlacement, offset_in_output}
use fyra.Linker.Entry.{append_to_text}
use fyra.Linker.Errors.{ok, err, >>=-eq-ok, thunk_unsupported}
use fyra.Linker.Relocate.{
  Resolved, address, deferred, find_import, is_data, thunk_name, no_bytes, add_thunk,
  resolve_function, place_of, resolve_import, resolve_target, is_unknown, store_patched, apply_at,
  apply_resolved, relocate_in, relocate_one, relocate_artifact, relocate_all,
}

-- A section that was there is there, at its address, with at least its bytes.
abbrev pub SectionKept : String → LinkedSection → StringMap LinkedSection → Type 0
SectionKept name s sections =
    (t : LinkedSection) × (lookup name sections ≡ some t)
    × (t.virtual_address ≡ s.virtual_address)
    × (length s.bytes ≤ length t.bytes)

pub record Extends (image image' : LinkedImage) : Type 0 where
  pub symbols :
      (name : String) (s : LinkedSymbol)
      → lookup name image.symbols ≡ some s
      → lookup name image'.symbols ≡ some s
  pub sections :
      (name : String) (s : LinkedSection)
      → lookup name image.sections ≡ some s
      → SectionKept name s image'.sections
  pub arch : image'.arch ≡ image.arch
  pub entry : image'.entry_address ≡ image.entry_address

pub Extends-refl : (image : LinkedImage) → Extends image image
Extends-refl image = record {
  symbols = λ name s h. h;
  sections = λ name s h. (s, h, refl, le_refl (length s.bytes));
  arch = refl;
  entry = refl;
}

pub Extends-trans : {i j k : LinkedImage} → Extends i j → Extends j k → Extends i k
Extends-trans g h = record {
  symbols = λ name s e. h.symbols name s (g.symbols name s e);
  sections = λ name s e.
      let (t, p, v, l) = g.sections name s e in
      let (u, q, w, m) = h.sections name t p in (u, q, w ∙ v, le_trans l m);
  arch = h.arch ∙ g.arch;
  entry = h.entry ∙ g.entry;
}

-- Replacing a section by one at its address that is not shorter.
replaced_SectionKept :
    (key name : String) (old new s : LinkedSection) (sections : StringMap LinkedSection)
    → lookup key sections ≡ some old
    → new.virtual_address ≡ old.virtual_address
    → length old.bytes ≤ length new.bytes
    → lookup name sections ≡ some s
    → SectionKept name s (insert key new sections)
replaced_SectionKept key name old new s sections k v l h = elim (Bool-cases (str_eq key name)) [
  | inl same ↦
      let e : key ≡ name = (eq_iff key name).0 same in
      let is_old : old ≡ s = cc in
      (new, lookup-insert key name new sections ∙ rw same, rw (← is_old) v, rw (← is_old) l)
  | inr other ↦
      (s, lookup-insert key name new sections ∙ rw other h, refl, le_refl (length s.bytes))
]

new_symbol_kept :
    (key name : String) (new s : LinkedSymbol) (symbols : StringMap LinkedSymbol)
    → lookup key symbols ≡ none
    → lookup name symbols ≡ some s
    → lookup name (insert key new symbols) ≡ some s
new_symbol_kept key name new s symbols k h =
    ground (arith, lookup-insert key name new symbols, eq_iff key name)

-- Bytes behind the text and a symbol that was not there.
pub append_to_text-Extends :
    (image : LinkedImage) (text : LinkedSection) (bytes : List ℕ) (new : LinkedSymbol)
    → lookup ".text" image.sections ≡ some text
    → lookup new.name image.symbols ≡ none
    → Extends image (append_to_text image text bytes new)
unfolding append_to_text
append_to_text-Extends image text bytes new found absent = record {
  symbols = λ name s h. new_symbol_kept new.name name new s image.symbols absent h;
  sections = λ name s h.
      replaced_SectionKept ".text" name text
        (record text {
          bytes = text.bytes ++ bytes;
          virtual_size = length text.bytes + length bytes;
        })
        s image.sections found refl (omega (arith, length-append text.bytes bytes)) h;
  arch = refl;
  entry = refl;
}

ok_injective : {A : Type 0} {x y : A} → ok x ≡ ok y → x ≡ y
ok_injective h = cc

abbrev image_in : Resolved → LinkedImage
image_in (address image target) = image
image_in (deferred image) = image

add_thunk-Extends :
    (image : LinkedImage) (name : String) (o : Option LinkedSection) (r : Resolved)
    → lookup ".text" image.sections ≡ o
    → lookup (thunk_name name) image.symbols ≡ none
    → add_thunk image name o ≡ ok r
    → Extends image (image_in r)
unfolding add_thunk
add_thunk-Extends image name none r found absent h = absurd (cc)
add_thunk-Extends image name (some text) r found absent h =
    let thunk_vma = add64 text.virtual_address (length text.bytes) in
    let bytes = import_thunk_bytes image.arch image.os in
    let new : LinkedSymbol = record {
      name = thunk_name name;
      virtual_address = thunk_vma;
      size = length bytes;
      is_function = true;
      is_global = false;
      section_name = ".text";
    } in
    let x = append_to_text-Extends image text bytes new found absent in
    let y = append_to_text image text bytes new in
    elim (Bool-cases (no_bytes bytes)) [
      | inl empty ↦ absurd (let f : err thunk_unsupported ≡ ok r = rw empty at h in cc)
      | inr given ↦
          let f : ok (
                address (record y { import_thunk_vmas = insert name thunk_vma y.import_thunk_vmas })
                  thunk_vma)
              ≡ ok r =
            rw given at h in
          let e : address
                (record y { import_thunk_vmas = insert name thunk_vma y.import_thunk_vmas })
                thunk_vma
              ≡ r =
            cc in
          rw (← e)
            (record { symbols = x.symbols; sections = x.sections; arch = x.arch; entry = x.entry })
    ]

resolve_function-Extends :
    (image : LinkedImage) (name : String) (o : Option LinkedSymbol) (r : Resolved)
    → lookup (thunk_name name) image.symbols ≡ o
    → resolve_function image name o ≡ ok r
    → Extends image (image_in r)
unfolding resolve_function
resolve_function-Extends image name (some thunk) r found h =
    let e : address image thunk.virtual_address ≡ r = cc in rw (← e) (Extends-refl image)
resolve_function-Extends image name none r found h =
    add_thunk-Extends image name (find_section image ".text") r refl found h

-- Which libraries and data fixups are recorded moves nothing.
abbrev with_names : LinkedImage → String → String → LinkedImage
with_names image symbol library = record image {
  import_library_names = insert symbol library image.import_library_names;
}

with_names-Extends :
    (image i : LinkedImage) (symbol library : String)
    → Extends (with_names image symbol library) i
    → Extends image i
with_names-Extends image i symbol library x = record {
  symbols = x.symbols;
  sections = x.sections;
  arch = x.arch;
  entry = x.entry;
}

deferred-Extends :
    (image : LinkedImage) (fixups : List DataImportFixup)
    → Extends image (record image { data_import_fixups = fixups })
deferred-Extends image fixups =
    let x = Extends-refl image in
    record { symbols = x.symbols; sections = x.sections; arch = x.arch; entry = x.entry }

abbrev import_fixup : LinkedSection → ℕ → ObjectRelocation → DataImportFixup
import_fixup lsec output_offset reloc = record {
  section_name = reloc.section_name;
  section_offset = add64 output_offset reloc.offset;
  place_address = place_of lsec output_offset reloc;
  symbol_name = reloc.symbol_name;
  addend = reloc.addend;
  reloc_type = reloc.type;
}

resolve_import-Extends :
    (image : LinkedImage) (lsec : LinkedSection) (offset : ℕ) (reloc : ObjectRelocation)
    (o : Option DynamicImport) (r : Resolved)
    → resolve_import image lsec offset reloc o ≡ ok r
    → Extends image (image_in r)
unfolding resolve_import
resolve_import-Extends image lsec offset reloc none r h = absurd (cc)
resolve_import-Extends image lsec offset reloc (some imp) r h =
    let named = with_names image reloc.symbol_name imp.dependency_library in
    elim (Bool-cases (is_data imp.kind)) [
      | inl data_import ↦
          let f = rw data_import at h in
          with_names-Extends image (image_in r) reloc.symbol_name imp.dependency_library (
            rw (← ok_injective f) (
              deferred-Extends named
                (named.data_import_fixups ++ (import_fixup lsec offset reloc ∷ []))))
      | inr code ↦
          let f = rw code at h in
          with_names-Extends image (image_in r) reloc.symbol_name imp.dependency_library (
            resolve_function-Extends named reloc.symbol_name
              (find_symbol named (thunk_name reloc.symbol_name)) r refl f)
    ]

resolve_target-Extends :
    (image : LinkedImage) (lsec : LinkedSection) (offset : ℕ) (reloc : ObjectRelocation)
    (imports : List DynamicImport) (r : Resolved)
    → resolve_target image lsec offset reloc imports ≡ ok r
    → Extends image (image_in r)
unfolding resolve_target
resolve_target-Extends image lsec offset reloc imports r h =
    elim (Option-cases (find_symbol image reloc.symbol_name)) [
      | inr (defined, e) ↦
          let f = rw (resolve_target, e) at h in rw (← ok_injective f) (Extends-refl image)
      | inl e ↦
          let g = rw (resolve_target, e) at h in
          elim (Option-cases (find_section image reloc.symbol_name)) [
            | inr (sec, e') ↦ let f = rw e' at g in rw (← ok_injective f) (Extends-refl image)
            | inl e' ↦
                resolve_import-Extends image lsec offset reloc
                  (find_import imports reloc.symbol_name) r (rw e' at g)
          ]
    ]

replaced-Extends :
    (image : LinkedImage) (name : String) (old : LinkedSection) (bytes : List ℕ) (fixups : List ℕ)
    → lookup name image.sections ≡ some old
    → length bytes ≡ length old.bytes
    → Extends image (record image {
      sections = insert name (record old { bytes = bytes }) image.sections;
      relocation_fixup_vmas = fixups;
    })
replaced-Extends image name old bytes fixups found same = record {
  symbols = λ other s h. h;
  sections = λ other s h.
      replaced_SectionKept name other old (record old { bytes = bytes }) s image.sections found refl
        (omega (arith, same)) h;
  arch = refl;
  entry = refl;
}

-- Patched bytes are as many as before.
store_patched-Extends :
    (image image' : LinkedImage) (lsec : LinkedSection) (reloc : ObjectRelocation)
    (kind : RelocationKind) (place target offset : ℕ) (e : Evaluated)
    → evaluate kind target place reloc.addend lsec.bytes offset image.arch ≡ e
    → lookup reloc.section_name image.sections ≡ some lsec
    → store_patched image lsec reloc kind place e ≡ ok image'
    → Extends image image'
unfolding store_patched
store_patched-Extends image image' lsec reloc kind place target offset (failed e) is found h =
    absurd (cc)
store_patched-Extends image image' lsec reloc kind place target offset (patched bytes) is found h =
    let agree =
      evaluate-AgreeOutside kind target place reloc.addend lsec.bytes offset image.arch is in
    rw (← ok_injective h)
      (replaced-Extends image reloc.section_name lsec bytes _ found agree.same_length)

apply_at-Extends :
    (image image' : LinkedImage) (target offset : ℕ) (reloc : ObjectRelocation)
    (o : Option LinkedSection)
    → lookup reloc.section_name image.sections ≡ o
    → apply_at image target offset reloc o ≡ ok image'
    → Extends image image'
unfolding apply_at
apply_at-Extends image image' target offset reloc none found h =
    rw (← ok_injective h) (Extends-refl image)
apply_at-Extends image image' target offset reloc (some lsec) found h =
    elim (Bool-cases (is_unknown (normalize_type reloc.type))) [
      | inl u ↦ absurd (let f = rw u at h in cc)
      | inr known ↦
          store_patched-Extends image image' lsec reloc (normalize_type reloc.type)
            (place_of lsec offset reloc) target (add64 offset reloc.offset) _ refl found
            (rw known at h)
    ]

apply_resolved-Extends :
    (offset : ℕ) (reloc : ObjectRelocation) (r : Resolved) (image' : LinkedImage)
    → apply_resolved offset reloc r ≡ ok image'
    → Extends (image_in r) image'
unfolding apply_resolved
apply_resolved-Extends offset reloc (deferred image) image' h =
    rw (← ok_injective h) (Extends-refl image)
apply_resolved-Extends offset reloc (address image target) image' h =
    apply_at-Extends image image' target offset reloc _ refl h

relocate_in-Extends :
    (imports : List DynamicImport) (offset : ℕ) (reloc : ObjectRelocation)
    (image image' : LinkedImage) (o : Option LinkedSection)
    → relocate_in imports offset reloc image o ≡ ok image'
    → Extends image image'
unfolding relocate_in
relocate_in-Extends imports offset reloc image image' none h =
    rw (← ok_injective h) (Extends-refl image)
relocate_in-Extends imports offset reloc image image' (some lsec) h =
    let (r, e, rest) =
      >>=-eq-ok (resolve_target image lsec offset reloc imports) (apply_resolved offset reloc) h in
    Extends-trans (resolve_target-Extends image lsec offset reloc imports r e)
      (apply_resolved-Extends offset reloc r image' rest)

relocate_artifact-Extends :
    (placements : List SectionPlacement) (imports : List DynamicImport) (index : ℕ)
    (relocs : List ObjectRelocation) (image image' : LinkedImage)
    → relocate_artifact placements imports index relocs image ≡ ok image'
    → Extends image image'
unfolding relocate_artifact relocate_one
relocate_artifact-Extends placements imports index [] image image' h =
    rw (← ok_injective h) (Extends-refl image)
relocate_artifact-Extends placements imports index (reloc ∷ relocs) image image' h =
    let (image1, e, rest) =
      >>=-eq-ok (relocate_one placements imports index reloc image)
        (relocate_artifact placements imports index relocs) h in
    Extends-trans
      (relocate_in-Extends imports (offset_in_output placements index reloc.section_name) reloc
        image image1 _ e)
      (relocate_artifact-Extends placements imports index relocs image1 image' rest)

-- Relocations that succeed keep every symbol, every section at its address with at least its bytes,
-- the architecture and the entry address.
pub relocate_all-Extends :
    (placements : List SectionPlacement) (imports : List DynamicImport) (index : ℕ)
    (arts : List ObjectArtifact) (image : LinkedImage) {image' : LinkedImage}
    → relocate_all placements imports index arts image ≡ ok image'
    → Extends image image'
unfolding relocate_all
relocate_all-Extends placements imports index [] image h =
    rw (← ok_injective h) (Extends-refl image)
relocate_all-Extends placements imports index (art ∷ arts) image {image'} h =
    let (image1, e, rest) =
      >>=-eq-ok (relocate_artifact placements imports index art.relocations image)
        (relocate_all placements imports (suc index) arts) h in
    Extends-trans
      (relocate_artifact-Extends placements imports index art.relocations image image1 e)
      (relocate_all-Extends placements imports (suc index) arts image1 rest)
