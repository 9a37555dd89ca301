-- ===== src/Prelude/Texts.antt =====
-- Names are native texts, compared whole. `std::map` with text keys is an association list that is
-- kept in the order of its keys, as an iteration over the map visits them.
use Prim.Native.Nat.{Ordering}
use Prim.Native.String.{String, compare}
use mathlib.Core.Path.{◌≡◌, refl}
use mathlib.Core.Option.{Option, none, some}
use mathlib.Core.List.{List, [], ◌∷◌}
use native.Mathlib.Omega.{arith}
use fyra.Prelude.Tests.{if◌then◌else◌}
use text.Mathlib.TextEquality.{path_by_compare}
pub use text.Mathlib.Text.{◌==◌}
pub use text.Mathlib.TextEquality.{eq_iff}
pub use text.Mathlib.TextPositions.{eq_refl}
pub use Prim.Native.String.{◌++◌ as append}

abbrev pub StringMap {ℓ} : Type ℓ → Type ℓ
StringMap V = List (String × V)

module _ {ℓ} {Value : Type ℓ} where
  -- find: none stands for end().
  unfoldable pub lookup : String → StringMap Value → Option Value
  lookup key [] = none
  lookup key ((here, value) ∷ rest) = if here == key then some value else lookup key rest

  -- operator[] with an assignment.
  unfoldable pub insert : String → Value → StringMap Value → StringMap Value
  insert key value [] = (key, value) ∷ []
  insert key value ((here, old) ∷ rest) = elim (compare key here) [
    | Ordering.lt ↦ (key, value) ∷ (here, old) ∷ rest
    | Ordering.eq ↦ (key, value) ∷ rest
    | Ordering.gt ↦ (here, old) ∷ insert key value rest
  ]

  pub lookup-insert :
      (key other : String) (value : Value) (map : StringMap Value)
      → lookup other (insert key value map)
        ≡ (if key == other then some value else lookup other map)
  unfolding lookup insert
  lookup-insert key other value [] = refl
  lookup-insert key other value ((here, old) ∷ rest) = ground (
    arith,
    path_by_compare key here,
    eq_iff key other,
    eq_iff here other,
    lookup-insert key other value rest,
  )
