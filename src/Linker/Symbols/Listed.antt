-- ===== src/Linker/Symbols/Listed.antt =====
-- The symbol table as one run over the list of all defined symbols: a global symbol, once entered, is
-- found under its name.
use fyra.Prelude.{
  ℕ, suc, ◌≡◌, refl, sym, ap, ◌∙◌, arith, inl, inr, String, true, some, List, [], ◌∷◌, ◌++◌, All,
  Bool-cases, if◌then◌else◌,
}
use fyra.Prelude.Texts.{StringMap, lookup, lookup-insert, eq_iff, eq_refl}
use fyra.Object.{ObjectArtifact, ObjectSymbol}
use fyra.Linker.Image.{LinkedSymbol}
use fyra.Linker.Errors.{Result, ok, ◌>>=◌, bind_congr, bind_assoc, >>=-eq-ok}
use fyra.Linker.Symbols.Define.{Placed, linked_symbol, define_symbol, define_all, resolve_symbols}

-- The symbols that are defined, in the order in which the linker meets them.
unfoldable pub linked_in : Placed → ℕ → List ObjectSymbol → List LinkedSymbol
linked_in placed index [] = []
linked_in placed index (s ∷ ss) =
    let rest = linked_in placed index ss in
    if s.is_defined then linked_symbol placed index s ∷ rest else rest

unfoldable pub linked_symbols : Placed → ℕ → List ObjectArtifact → List LinkedSymbol
unfolding linked_in
linked_symbols placed index [] = []
linked_symbols placed index (art ∷ arts) =
    linked_in placed index art.symbols ++ linked_symbols placed (suc index) arts

unfoldable pub define_list :
    List LinkedSymbol → StringMap LinkedSymbol → Result (StringMap LinkedSymbol)
define_list [] m = ok m
define_list (s ∷ ss) m = define_symbol s m >>= define_list ss

pub define_list-append :
    (xs ys : List LinkedSymbol) (m : StringMap LinkedSymbol)
    → define_list (xs ++ ys) m ≡ (define_list xs m >>= define_list ys)
unfolding define_list
define_list-append [] ys m = refl
define_list-append (x ∷ xs) ys m =
    bind_congr (define_symbol x m) (define_list-append xs ys)
    ∙ sym (bind_assoc (define_symbol x m) (define_list xs) (define_list ys))

pub define_all-list :
    (placed : Placed) (index : ℕ) (ss : List ObjectSymbol) (m : StringMap LinkedSymbol)
    → define_all placed index ss m ≡ define_list (linked_in placed index ss) m
unfolding define_all define_list linked_in
define_all-list placed index [] m = refl
define_all-list placed index (s ∷ ss) m = elim (Bool-cases s.is_defined) [
  | inl yes_defined ↦ rw yes_defined (
      bind_congr (define_symbol (linked_symbol placed index s) m) (define_all-list placed index ss))
  | inr not_defined ↦ rw not_defined (define_all-list placed index ss m)
]

pub resolve_symbols-list :
    (placed : Placed) (index : ℕ) (arts : List ObjectArtifact) (m : StringMap LinkedSymbol)
    → resolve_symbols placed index arts m ≡ define_list (linked_symbols placed index arts) m
unfolding resolve_symbols linked_symbols
resolve_symbols-list placed index [] m = unfold define_list in refl
resolve_symbols-list placed index (art ∷ arts) m =
    bind_congr (define_all placed index art.symbols m)
      (resolve_symbols-list placed (suc index) arts)
    ∙ ap (λ r. r >>= define_list (linked_symbols placed (suc index) arts))
        (define_all-list placed index art.symbols m)
    ∙ sym (
        define_list-append (linked_in placed index art.symbols)
          (linked_symbols placed (suc index) arts) m)

-- A global entry stays as it is.
define_symbol-keeps :
    (s t : LinkedSymbol) (name : String) (m m' : StringMap LinkedSymbol)
    → define_symbol s m ≡ ok m'
    → lookup name m ≡ some t
    → t.is_global ≡ true
    → lookup name m' ≡ some t
unfolding define_symbol
define_symbol-keeps s t name m m' h found g =
    ground (arith, lookup-insert s.name name s m, eq_iff s.name name)

define_list-keeps :
    (ss : List LinkedSymbol) (t : LinkedSymbol) (name : String) (m m' : StringMap LinkedSymbol)
    → define_list ss m ≡ ok m'
    → lookup name m ≡ some t
    → t.is_global ≡ true
    → lookup name m' ≡ some t
unfolding define_list
define_list-keeps [] t name m m' h found g = ground arith
define_list-keeps (s ∷ ss) t name m m' h found g =
    let (m1, e, rest) = >>=-eq-ok (define_symbol s m) (define_list ss) h in
    define_list-keeps ss t name m1 m' rest (define_symbol-keeps s t name m m1 e found g) g

pub define_symbol-finds :
    (s : LinkedSymbol) (m m' : StringMap LinkedSymbol)
    → define_symbol s m ≡ ok m'
    → s.is_global ≡ true
    → lookup s.name m' ≡ some s
unfolding define_symbol
define_symbol-finds s m m' h g = ground (arith, lookup-insert s.name s.name s m, eq_refl s.name)

-- Every global symbol of the list is found under its name.
abbrev pub AllFound : StringMap LinkedSymbol → List LinkedSymbol → Type 0
AllFound m = All (λ s. s.is_global ≡ true → lookup s.name m ≡ some s)

pub define_list-AllFound :
    (ss : List LinkedSymbol) (m m' : StringMap LinkedSymbol)
    → define_list ss m ≡ ok m'
    → AllFound m' ss
unfolding define_list
define_list-AllFound [] m m' h = tt
define_list-AllFound (s ∷ ss) m m' h =
    let (m1, e, rest) = >>=-eq-ok (define_symbol s m) (define_list ss) h in
    (
      λ g. define_list-keeps ss s s.name m1 m' rest (define_symbol-finds s m m1 e g) g,
      define_list-AllFound ss m1 m' rest,
    )
