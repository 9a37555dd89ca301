-- ===== src/Linker/Symbols/Define.antt =====
-- InternalLinker::link, the resolution of symbols: every defined symbol gets its address, and a
-- global name may be defined once.
use fyra.Prelude.{ℕ, suc, Bool, true, false, Option, none, some, List, [], ◌∷◌, if◌then◌else◌}
use fyra.Prelude.Texts.{StringMap, lookup, insert}
use fyra.Word.{add64}
use fyra.Object.{ObjectArtifact, ObjectSymbol, is_global, is_function}
use fyra.Linker.Image.{LinkedSection, LinkedSymbol}
use fyra.Linker.Layout.{SectionPlacement, offset_in_output}
use fyra.Linker.Errors.{Result, ok, err, duplicate_symbol, ◌>>=◌}

abbrev pub section_vma : ℕ → Option LinkedSection → ℕ
section_vma base_vma none = base_vma
section_vma base_vma (some sec) = sec.virtual_address

-- What the symbols are resolved against.
pub record Placed : Type 0 where
  pub base_vma : ℕ
  pub sections : StringMap LinkedSection
  pub placements : List SectionPlacement

unfoldable pub linked_symbol : Placed → ℕ → ObjectSymbol → LinkedSymbol
unfolding offset_in_output lookup
linked_symbol placed index sym = record {
  name = sym.name;
  virtual_address =
      add64
        (add64 (section_vma placed.base_vma (lookup sym.section_name placed.sections))
          (offset_in_output placed.placements index sym.section_name))
        sym.value;
  size = sym.size;
  is_function = is_function sym.type;
  is_global = is_global sym.binding;
  section_name = sym.section_name;
}

abbrev pub holds_global : Option LinkedSymbol → Bool
holds_global none = false
holds_global (some sym) = sym.is_global

abbrev pub holds_any : Option LinkedSymbol → Bool
holds_any none = false
holds_any (some sym) = true

unfoldable pub define_symbol :
    LinkedSymbol → StringMap LinkedSymbol → Result (StringMap LinkedSymbol)
define_symbol sym symbols =
    if sym.is_global
    then (if holds_global (lookup sym.name symbols)
        then err (duplicate_symbol sym.name)
        else ok (insert sym.name sym symbols))
    else (if holds_any (lookup sym.name symbols)
        then ok symbols
        else ok (insert sym.name sym symbols))

unfoldable pub define_all :
    Placed → ℕ → List ObjectSymbol → StringMap LinkedSymbol → Result (StringMap LinkedSymbol)
unfolding define_symbol linked_symbol
define_all placed index [] symbols = ok symbols
define_all placed index (sym ∷ syms) symbols =
    if sym.is_defined
    then define_symbol (linked_symbol placed index sym) symbols >>= define_all placed index syms
    else define_all placed index syms symbols

unfoldable pub resolve_symbols :
    Placed → ℕ → List ObjectArtifact → StringMap LinkedSymbol → Result (StringMap LinkedSymbol)
unfolding define_all
resolve_symbols placed index [] symbols = ok symbols
resolve_symbols placed index (art ∷ arts) symbols =
    define_all placed index art.symbols symbols >>= resolve_symbols placed (suc index) arts
