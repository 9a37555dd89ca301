-- ===== src/Prelude/Maps.antt =====
-- `std::map` with pointers as keys: objects are named by numbers, and the entry that was written last
-- stands first.
use Prim.Native.Nat.{ℕ}
use mathlib.Core.Option.{Option, none, some}
use mathlib.Core.List.{List, [], ◌∷◌}
use fyra.Prelude.Tests.{◌==◌, if◌then◌else◌}

abbrev pub PointerMap {ℓ} : Type ℓ → Type ℓ
PointerMap V = List (ℕ × V)

module _ {ℓ} {V : Type ℓ} where
  abbrev pub find : PointerMap V → ℕ → Option V
  find [] id = none
  find ((key, value) ∷ rest) id = if key == id then some value else find rest id

  abbrev pub put : ℕ → V → PointerMap V → PointerMap V
  put id value map = (id, value) ∷ map
