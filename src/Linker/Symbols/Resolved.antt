-- ===== src/Linker/Symbols/Resolved.antt =====
-- The symbols of the linked image, against the artifacts that define them.
use fyra.Prelude.{
  ℕ, suc, ◌+◌, ◌%◌, ◌^◌, ◌≡◌, refl, sym, arith, inl, inr, Bool, true, false, some, List, [], ◌∷◌,
  ◌++◌, All, Bool-cases, if◌then◌else◌,
}
use fyra.Prelude.Texts.{StringMap, lookup}
use fyra.Object.{ObjectArtifact, ObjectSymbol, is_global, is_function}
use fyra.Linker.Image.{LinkedSymbol}
use fyra.Linker.Layout.{offset_in_output}
use fyra.Linker.Errors.{ok}
use fyra.Linker.Symbols.Define.{Placed, section_vma, linked_symbol, resolve_symbols}
use fyra.Linker.Symbols.Listed.{linked_in, linked_symbols, AllFound}
use fyra.Linker.Symbols.Unique.{resolve_symbols-AllFound}

-- What is known of a defined symbol of the artifact with the given number: its name and size, and the
-- address of its section in memory, plus the artifact's offset in it, plus its value, in 64 bits.
pub record IsLinked (placed : Placed) (index : ℕ) (sym : ObjectSymbol) (s : LinkedSymbol)
    : Type 0 where
  pub name : s.name ≡ sym.name
  pub address :
      s.virtual_address
      ≡ (section_vma placed.base_vma (lookup sym.section_name placed.sections)
          + offset_in_output placed.placements index sym.section_name
          + sym.value)
        % 2 ^ 64
  pub size : s.size ≡ sym.size
  pub is_function : s.is_function ≡ is_function sym.type
  pub is_global : s.is_global ≡ is_global sym.binding
  pub section_name : s.section_name ≡ sym.section_name

-- Each defined global symbol of the artifacts has a property, which may depend on the artifact's number.
abbrev pub EachIn : (ℕ → ObjectSymbol → Type 0) → ℕ → List ObjectSymbol → Type 0
EachIn P index syms =
    All (λ sym. sym.is_defined ≡ true → is_global sym.binding ≡ true → P index sym) syms

abbrev pub EachGlobal : (ℕ → ObjectSymbol → Type 0) → ℕ → List ObjectArtifact → Type 0
EachGlobal P index [] = Unit
EachGlobal P index (art ∷ arts) = EachIn P index art.symbols × EachGlobal P (suc index) arts

-- The symbol is in the table under its name.
abbrev pub ResolvedIn : Placed → StringMap LinkedSymbol → ℕ → ObjectSymbol → Type 0
ResolvedIn placed m index sym =
    (s : LinkedSymbol) × (lookup sym.name m ≡ some s) × IsLinked placed index sym s

linked_symbol-IsLinked :
    (placed : Placed) (index : ℕ) (sym : ObjectSymbol)
    → IsLinked placed index sym (linked_symbol placed index sym)
unfolding linked_symbol
linked_symbol-IsLinked placed index sym = record {
  name = refl;
  address = omega arith;
  size = refl;
  is_function = refl;
  is_global = refl;
  section_name = refl;
}

AllFound-parts :
    (m : StringMap LinkedSymbol) (xs ys : List LinkedSymbol)
    → AllFound m (xs ++ ys)
    → AllFound m xs × AllFound m ys
AllFound-parts m [] ys found = (tt, found)
AllFound-parts m (x ∷ xs) ys (here, rest) =
    let (left, right) = AllFound-parts m xs ys rest in ((here, left), right)

head_kept :
    (m : StringMap LinkedSymbol) (b : Bool) (x : LinkedSymbol) (xs : List LinkedSymbol)
    → b ≡ true
    → AllFound m (if b then x ∷ xs else xs)
    → AllFound m (x ∷ xs)
head_kept m true x xs h found = found
head_kept m false x xs h found = absurd (cc)

linked_in-EachIn :
    (placed : Placed) (m : StringMap LinkedSymbol) (index : ℕ) (syms : List ObjectSymbol)
    → AllFound m (linked_in placed index syms)
    → EachIn (ResolvedIn placed m) index syms
unfolding linked_in linked_symbol
linked_in-EachIn placed m index [] found = tt
linked_in-EachIn placed m index (new ∷ syms) found = elim (Bool-cases new.is_defined) [
  | inr undefined ↦
      (λ d g. absurd (cc), linked_in-EachIn placed m index syms (rw undefined at found))
  | inl defined ↦
      let (here, rest) =
        head_kept m new.is_defined (linked_symbol placed index new) (linked_in placed index syms)
          defined found in
      let l = linked_symbol-IsLinked placed index new in
      (
        λ d g. (linked_symbol placed index new, here g, l),
        linked_in-EachIn placed m index syms rest,
      )
]

pub AllFound-EachGlobal :
    (placed : Placed) (m : StringMap LinkedSymbol) (index : ℕ) (arts : List ObjectArtifact)
    → AllFound m (linked_symbols placed index arts)
    → EachGlobal (ResolvedIn placed m) index arts
unfolding linked_symbols
AllFound-EachGlobal placed m index [] found = tt
AllFound-EachGlobal placed m index (art ∷ arts) found =
    let (here, rest) =
      AllFound-parts m (linked_in placed index art.symbols) (linked_symbols placed (suc index) arts)
        found in
    (
      linked_in-EachIn placed m index art.symbols here,
      AllFound-EachGlobal placed m (suc index) arts rest,
    )

EachIn-map :
    {P Q : ℕ → ObjectSymbol → Type 0}
    → ((index : ℕ) (sym : ObjectSymbol) → is_global sym.binding ≡ true → P index sym → Q index sym)
    → (index : ℕ) (syms : List ObjectSymbol) → EachIn P index syms
    → EachIn Q index syms
EachIn-map f index [] each = tt
EachIn-map f index (new ∷ syms) (here, rest) =
    (λ d g. f index new g (here d g), EachIn-map f index syms rest)

pub EachGlobal-map :
    {P Q : ℕ → ObjectSymbol → Type 0}
    → ((index : ℕ) (sym : ObjectSymbol) → is_global sym.binding ≡ true → P index sym → Q index sym)
    → (index : ℕ) (arts : List ObjectArtifact) → EachGlobal P index arts
    → EachGlobal Q index arts
EachGlobal-map f index [] each = tt
EachGlobal-map f index (art ∷ arts) (here, rest) =
    (EachIn-map f index art.symbols here, EachGlobal-map f (suc index) arts rest)

-- Where the symbols resolve, each defined global symbol of each artifact is found under its name, with
-- its size and section, at the address of its section in memory, plus the artifact's offset in it,
-- plus its value, modulo 2 ^ 64.
pub resolve_symbols-EachGlobal :
    (placed : Placed) (arts : List ObjectArtifact) {m : StringMap LinkedSymbol}
    → resolve_symbols placed 0 arts [] ≡ ok m
    → EachGlobal (ResolvedIn placed m) 0 arts
resolve_symbols-EachGlobal placed arts {m} h =
    AllFound-EachGlobal placed m 0 arts (resolve_symbols-AllFound placed arts h)
