-- ===== src/Linker/Plan/Exports.antt =====
-- What the plan of a linked image exports and depends on.
use fyra.Prelude.{
  ℕ, ◌+◌, ◌%◌, ◌^◌, ◌≡◌, refl, sym, ◌∙◌, arith, ◌⊎◌, inl, inr, ◌↔◌, String, Bool, true, false, ◌||◌,
  some, List, [], ◌∷◌, ◌++◌, Bool-cases, append_assoc, append-nil,
}
use fyra.Prelude.Texts.{StringMap, lookup, eq_iff}
use fyra.Prelude.Texts.{◌==◌ as str_eq}
use fyra.Object.{ObjectArtifact, ObjectSymbol, is_global, is_function}
use fyra.Linker.Image.{LinkedImage, LinkedSymbol, LinkOutputKind, DynamicImport}
use fyra.Linker.Errors.{ok}
use fyra.Linker.Layout.{layout, offset_in_output}
use fyra.Linker.Symbols.{Placed, section_vma}
use fyra.Linker.Symbols.Resolved.{EachGlobal, ResolvedIn, EachGlobal-map, AllFound-EachGlobal}
use fyra.Linker.Link.{link, base_vma, placed_of}
use fyra.Linker.Link.Sound.{link-Linked}
use fyra.Linker.Plan.{
  DynamicExport, DynamicDependency, DynamicLinkPlan, export_of, exports_of, has_dependency,
  add_dependency, add_imports, plan_of, create_from_linked_image,
}

-- The imports name the library.
unfoldable pub imported_from : List DynamicImport → String → Bool
imported_from [] library = false
imported_from (imp ∷ imps) library =
    str_eq imp.dependency_library library || imported_from imps library

-- No library is listed twice.
abbrev pub DistinctLibraries : List DynamicDependency → Type 0
DistinctLibraries [] = Unit
DistinctLibraries (dep ∷ deps) =
    (has_dependency deps dep.library_name ≡ false) × DistinctLibraries deps

has_dependency-append :
    (deps more : List DynamicDependency) (library : String)
    → has_dependency (deps ++ more) library
      ≡ (has_dependency deps library || has_dependency more library)
unfolding has_dependency
has_dependency-append [] more library = refl
has_dependency-append (dep ∷ deps) more library =
    ground (arith, has_dependency-append deps more library)

has_dependency-add :
    (deps : List DynamicDependency) (new library : String)
    → has_dependency (add_dependency deps new) library
      ≡ (has_dependency deps library || str_eq new library)
unfolding has_dependency
has_dependency-add deps new library = ground (
  arith,
  has_dependency-append deps (record { library_name = new } ∷ []) library,
  eq_iff new library,
)

DistinctLibraries-append :
    (deps : List DynamicDependency) (new : String)
    → has_dependency deps new ≡ false
    → DistinctLibraries deps
    → DistinctLibraries (deps ++ (record { library_name = new } ∷ []))
unfolding has_dependency
DistinctLibraries-append [] new absent distinct = (refl, tt)
DistinctLibraries-append (dep ∷ deps) new absent (here, rest) = (
  ground (
    arith,
    has_dependency-append deps (record { library_name = new } ∷ []) dep.library_name,
    eq_iff new dep.library_name,
    eq_iff dep.library_name new,
  ),
  DistinctLibraries-append deps new (ground arith) rest,
)

add_dependency-DistinctLibraries :
    (deps : List DynamicDependency) (new : String)
    → DistinctLibraries deps
    → DistinctLibraries (add_dependency deps new)
add_dependency-DistinctLibraries deps new distinct = elim (Bool-cases (has_dependency deps new)) [
  | inl present ↦ rw present distinct
  | inr absent ↦ rw absent (DistinctLibraries-append deps new absent distinct)
]

add_imports-dependencies :
    (imps : List DynamicImport) (plan : DynamicLinkPlan)
    → DistinctLibraries plan.dependencies
    → DistinctLibraries (add_imports imps plan).dependencies
      × ((library : String)
          → has_dependency (add_imports imps plan).dependencies library
            ≡ (has_dependency plan.dependencies library || imported_from imps library))
      × ((add_imports imps plan).imports ≡ plan.imports ++ imps)
      × ((add_imports imps plan).exports ≡ plan.exports)
unfolding add_imports imported_from
add_imports-dependencies [] plan distinct =
    (distinct, λ library. ground arith, sym (append-nil plan.imports), refl)
add_imports-dependencies (imp ∷ imps) plan distinct =
    let next = record plan {
      imports = plan.imports ++ (imp ∷ []);
      dependencies = add_dependency plan.dependencies imp.dependency_library;
    } in
    let (d, has, order, same) =
      add_imports-dependencies imps next
        (add_dependency-DistinctLibraries plan.dependencies imp.dependency_library distinct) in
    (
      d,
      λ library.
          ground (
            arith,
            has library,
            has_dependency-add plan.dependencies imp.dependency_library library,
          ),
      order ∙ append_assoc plan.imports (imp ∷ []) imps,
      same,
    )

-- The plan's dependencies are the libraries of its imports, each listed once, and its imports are the
-- given ones in their order.
pub create-dependencies :
    (image : LinkedImage) (imports : List DynamicImport)
    → DistinctLibraries (create_from_linked_image image imports).dependencies
      × ((library : String)
          → has_dependency (create_from_linked_image image imports).dependencies library
            ≡ imported_from imports library)
      × ((create_from_linked_image image imports).imports ≡ imports)
unfolding create_from_linked_image has_dependency
create-dependencies image imports =
    let (d, has, order, same) = add_imports-dependencies imports (plan_of image) tt in
    (d, has, order)

-- The export is in the list; the symbol is in the table.
abbrev pub Contains : DynamicExport → List DynamicExport → Type 0
Contains x [] = ⊥
Contains x (y ∷ ys) = (y ≡ x) ⊎ Contains x ys

abbrev pub HasEntry : LinkedSymbol → StringMap LinkedSymbol → Type 0
HasEntry s [] = ⊥
HasEntry s ((name, t) ∷ symbols) = (t ≡ s) ⊎ HasEntry s symbols

lookup-HasEntry :
    (name : String) (s : LinkedSymbol) (symbols : StringMap LinkedSymbol)
    → lookup name symbols ≡ some s
    → HasEntry s symbols
unfolding lookup
lookup-HasEntry name s [] h = absurd (cc)
lookup-HasEntry name s ((key, t) ∷ symbols) h = elim (Bool-cases (str_eq key name)) [
  | inl same ↦ inl (let f : some t ≡ some s = rw same at h in cc)
  | inr other ↦ inr (lookup-HasEntry name s symbols (rw other at h))
]

exported :
    (s : LinkedSymbol) (symbols : StringMap LinkedSymbol)
    → HasEntry s symbols
    → s.is_global ≡ true
    → Contains (export_of s) (exports_of symbols)
unfolding exports_of
exported s [] h g = h
exported s ((name, t) ∷ symbols) (inl same) g = rw (same, g) (inl refl)
exported s ((name, t) ∷ symbols) (inr later) g = elim (Bool-cases t.is_global) [
  | inl shared ↦ rw shared (inr (exported s symbols later g))
  | inr hidden ↦ rw hidden (exported s symbols later g)
]

only_exported :
    (x : DynamicExport) (symbols : StringMap LinkedSymbol)
    → Contains x (exports_of symbols)
    → (s : LinkedSymbol) × HasEntry s symbols × (s.is_global ≡ true) × (export_of s ≡ x)
unfolding exports_of
only_exported x [] h = absurd h
only_exported x ((name, t) ∷ symbols) h = elim (Bool-cases t.is_global) [
  | inr hidden ↦
      let (s, here, g, e) = only_exported x symbols (rw hidden at h) in (s, inr here, g, e)
  | inl shared ↦ elim (rw shared at h) [
    | inl e ↦ (t, inl refl, shared, e)
    | inr later ↦ let (s, here, g, e) = only_exported x symbols later in (s, inr here, g, e)
  ]
]

-- What is known of the export of a symbol.
pub record IsExport (s : LinkedSymbol) (x : DynamicExport) : Type 0 where
  pub symbol : x.symbol ≡ s.name
  pub is_function : x.is_function ≡ s.is_function
  pub address : x.address ≡ s.virtual_address
  pub size : x.size ≡ s.size
  pub section_name : x.section_name ≡ s.section_name

export_of-IsExport : (s : LinkedSymbol) → IsExport s (export_of s)
export_of-IsExport s = record {
  symbol = refl;
  is_function = refl;
  address = refl;
  size = refl;
  section_name = refl;
}

IsExport-unique : (s : LinkedSymbol) (x : DynamicExport) → IsExport s x → export_of s ≡ x
IsExport-unique s x e = rw (← e.symbol, ← e.is_function, ← e.address, ← e.size, ← e.section_name)

-- The plan's exports are the global symbols of the image and no others: an export stands in the plan
-- exactly if the image has a global symbol of its name, address, size, section and kind.
pub create-exports :
    (image : LinkedImage) (imports : List DynamicImport) (x : DynamicExport)
    → Contains x (create_from_linked_image image imports).exports
      ↔ ((s : LinkedSymbol) × HasEntry s image.symbols × (s.is_global ≡ true) × IsExport s x)
unfolding create_from_linked_image
create-exports image imports x =
    let (d, has, order, same) = add_imports-dependencies imports (plan_of image) tt in
    (
      λ h.
          let (s, here, g, e) = only_exported x image.symbols (rw same at h) in
          (s, here, g, rw e at (export_of-IsExport s)),
      λ r.
          let (s, here, g, e) = r in
          rw (same, ← IsExport-unique s x e) (exported s image.symbols here g),
    )

-- The plan has an export of the symbol: its name, its address (the address of its section in memory,
-- plus the artifact's offset in it, plus its value, in 64 bits), its size, its section, and whether it
-- is a function.
pub record ExportedIn (exports : List DynamicExport) (placed : Placed) (index : ℕ)
    (sym : ObjectSymbol) : Type 0 where
  pub export : DynamicExport
  pub contains : Contains export exports
  pub symbol : export.symbol ≡ sym.name
  pub is_function : export.is_function ≡ is_function sym.type
  pub address :
      export.address
      ≡ (section_vma placed.base_vma (lookup sym.section_name placed.sections)
          + offset_in_output placed.placements index sym.section_name
          + sym.value)
        % 2 ^ 64
  pub size : export.size ≡ sym.size
  pub section_name : export.section_name ≡ sym.section_name

ResolvedIn-ExportedIn :
    (image : LinkedImage) (imports : List DynamicImport) (placed : Placed) (index : ℕ)
    (sym : ObjectSymbol)
    → is_global sym.binding ≡ true
    → ResolvedIn placed image.symbols index sym
    → ExportedIn (create_from_linked_image image imports).exports placed index sym
ResolvedIn-ExportedIn image imports placed index sym g (s, found, l) =
    let e = export_of-IsExport s in
    record {
      export = export_of s;
      contains =
          (create-exports image imports (export_of s)).1
            (s, lookup-HasEntry sym.name s image.symbols found, l.is_global ∙ g, e);
      symbol = e.symbol ∙ l.name;
      is_function = e.is_function ∙ l.is_function;
      address = e.address ∙ l.address;
      size = e.size ∙ l.size;
      section_name = e.section_name ∙ l.section_name;
    }

-- The plan of a link that succeeds exports each defined global symbol of each artifact, with its name,
-- size, section and kind, at the address of its section in the layout, plus the artifact's offset in
-- it, plus its value, modulo 2 ^ 64.
pub link-EachGlobal :
    (first : ObjectArtifact) (rest : List ObjectArtifact) (kind : LinkOutputKind)
    (imports : List DynamicImport) {image : LinkedImage}
    → link (first ∷ rest) kind imports ≡ ok image
    → EachGlobal
        (ExportedIn
          (create_from_linked_image image imports).exports
          (placed_of first.os (layout (base_vma first.os) (first ∷ rest))))
        0
        (first ∷ rest)
link-EachGlobal first rest kind imports {image} h =
    let placed = placed_of first.os (layout (base_vma first.os) (first ∷ rest)) in
    EachGlobal-map (λ index sym. ResolvedIn-ExportedIn image imports placed index sym) 0
      (first ∷ rest)
      (AllFound-EachGlobal placed image.symbols 0 (first ∷ rest)
        (link-Linked first rest kind imports h).1.symbols)
