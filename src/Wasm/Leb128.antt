-- ===== src/Wasm/Leb128.antt =====
-- encode_unsigned_leb128 and encode_signed_leb128: the bytes that they push, on fuel; `none` means that
-- the fuel ran out. A 32-bit word has five groups of seven bits.
use fyra.Prelude.{
  ℕ, zero, suc, ◌+◌, ◌-◌, ◌/◌, ◌%◌, ◌^◌, Bool, ◌&&◌, ◌||◌, not, Option, none, some, List, [], ◌∷◌,
  ◌==◌, ltb, leb, if◌then◌else◌,
}

-- The loop goes on only where bytes are left.
abbrev pub push : ℕ → Option (List ℕ) → Option (List ℕ)
push byte none = none
push byte (some bytes) = some (byte ∷ bytes)

-- `value & 0x7F` and `value >>= 7` of a uint32_t; the flag is the high bit.
unfoldable pub encode_unsigned : ℕ → ℕ → Option (List ℕ)
encode_unsigned zero value = none
encode_unsigned (suc fuel) value =
    let rest = encode_unsigned fuel (value / 128) in
    if value / 128 == 0 then some (value % 128 ∷ []) else push (value % 128 + 128) rest

unfoldable pub encode_unsigned_leb128 : ℕ → Option (List ℕ)
unfolding encode_unsigned
encode_unsigned_leb128 value = encode_unsigned 5 value

-- `value >>= 7` of an int32_t in two's complement
abbrev pub shift_signed : ℕ → ℕ
shift_signed value = if ltb value (2 ^ 31) then value / 128 else value / 128 + (2 ^ 32 - 2 ^ 25)

-- `byte & 0x40`
abbrev pub has_sign : ℕ → Bool
has_sign byte = leb 64 byte

abbrev pub is_last : ℕ → ℕ → Bool
is_last value byte = value == 0 && not (has_sign byte) || value == 0xFFFFFFFF && has_sign byte

unfoldable pub encode_signed : ℕ → ℕ → Option (List ℕ)
encode_signed zero value = none
encode_signed (suc fuel) value =
    let rest = encode_signed fuel (shift_signed value) in
    if is_last (shift_signed value) (value % 128)
    then some (value % 128 ∷ [])
    else push (value % 128 + 128) rest

unfoldable pub encode_signed_leb128 : ℕ → Option (List ℕ)
unfolding encode_signed
encode_signed_leb128 value = encode_signed 5 value
