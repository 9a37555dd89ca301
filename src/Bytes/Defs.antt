-- ===== src/Bytes/Defs.antt =====
-- Reading and writing runs of bytes, and the little-endian byte order.
use fyra.Prelude.{
  ℕ, zero, suc, ◌+◌, ◌*◌, ◌/◌, ◌%◌, ◌<◌, Option, none, some, List, [], ◌∷◌, ◌++◌, leb, length, take,
  drop, if◌then◌else◌,
}

abbrev pub IsByte : ℕ → Type 0
IsByte b = b < 256

-- The bytes of a value, lowest first.
unfoldable pub le_bytes : ℕ → ℕ → List ℕ
le_bytes zero v = []
le_bytes (suc n) v = v % 256 ∷ le_bytes n (v / 256)

unfoldable pub of_le : List ℕ → ℕ
of_le [] = 0
of_le (b ∷ bs) = b + 256 * of_le bs

-- std::memcpy(&value, data + offset, n)
unfoldable pub read_bytes : List ℕ → ℕ → ℕ → Option (List ℕ)
read_bytes bytes offset n =
    if leb (offset + n) (length bytes) then some (take n (drop offset bytes)) else none

-- std::memcpy(data + offset, &value, n)
unfoldable pub write_bytes : List ℕ → ℕ → List ℕ → Option (List ℕ)
write_bytes bytes offset new =
    if leb (offset + length new) (length bytes)
    then some (take offset bytes ++ (new ++ drop (offset + length new) bytes))
    else none
