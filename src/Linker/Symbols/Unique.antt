-- ===== src/Linker/Symbols/Unique.antt =====
-- The symbol table: a link succeeds exactly where no global name is defined twice, and then every
-- global symbol is found under its name.
use fyra.Prelude.{
  ◌≡◌, refl, sym, ◌∙◌, arith, inl, inr, String, true, false, ◌||◌, ◌&&◌, List, [], ◌∷◌, ◌↔◌, not,
  All, Bool-cases, if◌then◌else◌,
}
use fyra.Prelude.Texts.{StringMap, lookup, insert, lookup-insert, eq_iff}
use fyra.Prelude.Texts.{◌==◌ as str_eq}
use fyra.Object.{ObjectArtifact}
use fyra.Linker.Image.{LinkedSymbol}
use fyra.Linker.Errors.{ok, >>=-eq-ok}
use fyra.Linker.Symbols.Define.{Placed, holds_global, holds_any, define_symbol, resolve_symbols}
use fyra.Linker.Symbols.Listed.{
  linked_symbols, define_list, resolve_symbols-list, AllFound, define_list-AllFound,
}

unfoldable pub global_names : List LinkedSymbol → List String
global_names [] = []
global_names (s ∷ ss) = let rest = global_names ss in if s.is_global then s.name ∷ rest else rest

-- No name occurs twice.
abbrev pub Absent : String → List String → Type 0
Absent name = All (λ other. str_eq name other ≡ false)

abbrev pub Distinct : List String → Type 0
Distinct [] = Unit
Distinct (name ∷ names) = Absent name names × Distinct names

-- None of the names is taken by a global symbol of the table.
abbrev Free : StringMap LinkedSymbol → List String → Type 0
Free m = All (λ name. holds_global (lookup name m) ≡ false)

-- Which names are taken after a symbol has been entered.
taken_after :
    (s : LinkedSymbol) (m m' : StringMap LinkedSymbol) (name : String)
    → define_symbol s m ≡ ok m'
    → holds_global (lookup name m')
      ≡ (s.is_global && str_eq s.name name || holds_global (lookup name m))
unfolding define_symbol
taken_after s m m' name h = ground (arith, lookup-insert s.name name s m, eq_iff s.name name)

split-Free :
    (s : LinkedSymbol) (m m' : StringMap LinkedSymbol) (names : List String)
    → define_symbol s m ≡ ok m'
    → s.is_global ≡ true
    → Free m' names
    → Absent s.name names × Free m names
split-Free s m m' [] h g f = (tt, tt)
split-Free s m m' (name ∷ names) h g (f, fs) =
    let (a, b) = split-Free s m m' names h g fs in
    ((ground (arith, taken_after s m m' name h), a), (ground (arith, taken_after s m m' name h), b))

join-Free :
    (s : LinkedSymbol) (m m' : StringMap LinkedSymbol) (names : List String)
    → define_symbol s m ≡ ok m'
    → Absent s.name names
    → Free m names
    → Free m' names
join-Free s m m' [] h a f = tt
join-Free s m m' (name ∷ names) h (a, rest) (f, fs) =
    (ground (arith, taken_after s m m' name h), join-Free s m m' names h rest fs)

same-Free :
    (s : LinkedSymbol) (m m' : StringMap LinkedSymbol) (names : List String)
    → define_symbol s m ≡ ok m'
    → s.is_global ≡ false
    → Free m names ↔ Free m' names
same-Free s m m' [] h g = (λ f. tt, λ f. tt)
same-Free s m m' (name ∷ names) h g =
    let both = same-Free s m m' names h g in
    (
      λ f. (ground (arith, taken_after s m m' name h, f.0), both.0 f.1),
      λ f. (ground (arith, taken_after s m m' name h, f.0), both.1 f.1),
    )

free_of_ok :
    (s : LinkedSymbol) (m m1 : StringMap LinkedSymbol)
    → define_symbol s m ≡ ok m1
    → s.is_global ≡ true
    → holds_global (lookup s.name m) ≡ false
unfolding define_symbol
free_of_ok s m m1 e g = ground arith

-- A run that succeeds met each global name once, and none that was taken.
Distinct-of_ok :
    (ss : List LinkedSymbol) (m m' : StringMap LinkedSymbol)
    → define_list ss m ≡ ok m'
    → Distinct (global_names ss) × Free m (global_names ss)
unfolding define_list global_names
Distinct-of_ok [] m m' h = (tt, tt)
Distinct-of_ok (s ∷ ss) m m' h =
    let (m1, e, rest) = >>=-eq-ok (define_symbol s m) (define_list ss) h in
    let (d, f) = Distinct-of_ok ss m1 m' rest in
    elim (Bool-cases s.is_global) [
      | inl g ↦
          let (a, b) = split-Free s m m1 (global_names ss) e g f in
          rw g ((a, d), (free_of_ok s m m1 e g, b))
      | inr l ↦ rw l (d, (same-Free s m m1 (global_names ss) e l).1 f)
    ]

-- A symbol whose name is free, or that is local, is entered.
enters :
    (s : LinkedSymbol) (m : StringMap LinkedSymbol)
    → (s.is_global && holds_global (lookup s.name m)) ≡ false
    → (m' : StringMap LinkedSymbol) × (define_symbol s m ≡ ok m')
unfolding define_symbol
enters s m h =
    (if not s.is_global && holds_any (lookup s.name m) then m else insert s.name s m, ground arith)

ok_of_Distinct :
    (ss : List LinkedSymbol) (m : StringMap LinkedSymbol)
    → Distinct (global_names ss)
    → Free m (global_names ss)
    → (m' : StringMap LinkedSymbol) × (define_list ss m ≡ ok m')
unfolding define_list global_names
ok_of_Distinct [] m d f = (m, refl)
ok_of_Distinct (s ∷ ss) m d f = elim (Bool-cases s.is_global) [
  | inl g ↦
      let (absent, distinct) = rw g at d in
      let (here, later) = rw g at f in
      let (m1, e) = enters s m (rw g here) in
      let (m', rest) =
        ok_of_Distinct ss m1 distinct (join-Free s m m1 (global_names ss) e absent later) in
      (m', rw e rest)
  | inr l ↦
      let (m1, e) = enters s m (rw l) in
      let (m', rest) =
        ok_of_Distinct ss m1 (rw l at d) ((same-Free s m m1 (global_names ss) e l).0 (rw l at f)) in
      (m', rw e rest)
]

Free-empty : (names : List String) → Free [] names
Free-empty [] = tt
Free-empty (name ∷ names) = (unfold lookup in refl, Free-empty names)

-- The symbols resolve exactly where no two definitions of the artifacts, weak ones included, share a
-- global name.
pub resolve_symbols-Distinct :
    (placed : Placed) (arts : List ObjectArtifact)
    → ((m : StringMap LinkedSymbol) × (resolve_symbols placed 0 arts [] ≡ ok m))
      ↔ Distinct (global_names (linked_symbols placed 0 arts))
resolve_symbols-Distinct placed arts =
    let ss = linked_symbols placed 0 arts in
    let same = resolve_symbols-list placed 0 arts [] in
    (
      λ r. (Distinct-of_ok ss [] r.0 (sym same ∙ r.1)).0,
      λ d. let (m, e) = ok_of_Distinct ss [] d (Free-empty (global_names ss)) in (m, same ∙ e),
    )

-- Where the symbols resolve, each defined global symbol of each artifact is found under its name, at
-- the address of its section in memory, plus the artifact's offset in it, plus its value.
pub resolve_symbols-AllFound :
    (placed : Placed) (arts : List ObjectArtifact) {m : StringMap LinkedSymbol}
    → resolve_symbols placed 0 arts [] ≡ ok m
    → AllFound m (linked_symbols placed 0 arts)
resolve_symbols-AllFound placed arts {m} h =
    define_list-AllFound (linked_symbols placed 0 arts) [] m
      (sym (resolve_symbols-list placed 0 arts []) ∙ h)
