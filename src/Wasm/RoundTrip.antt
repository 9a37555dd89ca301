-- ===== src/Wasm/RoundTrip.antt =====
-- What a reader of LEB128 numbers gets back from the bytes that are written.
use native.Mathlib.Nat.{pow-suc}
use fyra.Prelude.{
  ℕ, zero, suc, ◌+◌, ◌-◌, ◌*◌, ◌/◌, ◌%◌, ◌^◌, ◌≤◌, ◌<◌, ◌≡◌, refl, arith, ◌⊎◌, inl, inr, true,
  false, Option, none, some, List, [], ◌∷◌, ◌++◌, ltb, length, Bool-cases, ◌==◌, if◌then◌else◌,
}
use fyra.Wasm.Leb128.{
  encode_unsigned, encode_unsigned_leb128, shift_signed, is_last, encode_signed,
  encode_signed_leb128,
}

-- The numbers as the format defines them: groups of seven bits, the low group first; the high bit of a
-- byte says that another follows.
abbrev join_groups : ℕ → Option (ℕ × List ℕ) → Option (ℕ × List ℕ)
join_groups byte none = none
join_groups byte (some (value, rest)) = some ((byte - 128 + 128 * value) % 2 ^ 32, rest)

unfoldable pub decode_unsigned : List ℕ → Option (ℕ × List ℕ)
decode_unsigned [] = none
decode_unsigned (byte ∷ bytes) =
    let rest = decode_unsigned bytes in
    if ltb byte 128 then some (byte, bytes) else join_groups byte rest

-- The last group is signed; the value is a word in two's complement.
unfoldable pub decode_signed : List ℕ → Option (ℕ × List ℕ)
decode_signed [] = none
decode_signed (byte ∷ bytes) =
    let rest = decode_signed bytes in
    if ltb byte 64
    then some (byte, bytes)
    else if ltb byte 128
    then some (byte + 2 ^ 32 - 128, bytes)
    else join_groups byte rest

unsigned_last :
    (value : ℕ) (rest : List ℕ)
    → value < 128
    → decode_unsigned (value % 128 ∷ rest) ≡ some (value, rest)
unfolding decode_unsigned
unsigned_last value rest small =
    let low : ltb (value % 128) 128 ≡ true = ground arith in
    let same : value % 128 ≡ value = omega arith in rw (low, same) refl

unsigned_more :
    (value : ℕ) (bytes rest : List ℕ)
    → value < 2 ^ 32
    → decode_unsigned bytes ≡ some (value / 128, rest)
    → decode_unsigned ((value % 128 + 128) ∷ bytes) ≡ some (value, rest)
unfolding decode_unsigned
unsigned_more value bytes rest word back =
    let high : ltb (value % 128 + 128) 128 ≡ false = ground arith in
    let whole : (value % 128 + 128 - 128 + 128 * (value / 128)) % 2 ^ 32 ≡ value = omega arith in
    rw (high, back, whole) refl

-- What a write of a number gives, and what is read back from it.
abbrev pub Written : Option (List ℕ) → (List ℕ → Option (ℕ × List ℕ)) → ℕ → ℕ → List ℕ → Type 0
Written result decode most value rest =
    (bytes : List ℕ) × (result ≡ some bytes)
    × (decode (bytes ++ rest) ≡ some (value, rest))
    × (length bytes ≤ most)

unsigned_groups :
    (fuel value : ℕ) (rest : List ℕ)
    → value < 2 ^ 32
    → value < 128 ^ suc fuel
    → Written (encode_unsigned (suc fuel) value) decode_unsigned (suc fuel) value rest
unfolding encode_unsigned
unsigned_groups zero value rest word small =
    let last : (value / 128 == 0) ≡ true = ground arith in
    (value % 128 ∷ [], rw last refl, unsigned_last value rest (omega arith), omega arith)
unsigned_groups (suc fuel) value rest word small = elim (Bool-cases (value / 128 == 0)) [
  | inl last ↦
      (value % 128 ∷ [], rw last refl, unsigned_last value rest (ground arith), omega arith)
  | inr more ↦
      let (bytes, e, back, short) =
        unsigned_groups fuel (value / 128) rest (omega arith)
          (omega (arith, pow-suc 128 (suc fuel))) in
      (
        (value % 128 + 128) ∷ bytes,
        rw (more, e) refl,
        unsigned_more value (bytes ++ rest) rest word back,
        omega arith,
      )
]

-- A uint32_t is written in at most five bytes, from which a reader gets the number and the bytes behind
-- it.
pub decode-encode_unsigned :
    (value : ℕ) (rest : List ℕ)
    → value < 2 ^ 32
    → Written (encode_unsigned_leb128 value) decode_unsigned 5 value rest
unfolding encode_unsigned_leb128
decode-encode_unsigned value rest word = unsigned_groups 4 value rest word (omega arith)

-- The int32_t lies in [-bound, bound).
abbrev Near : ℕ → ℕ → Type 0
Near bound value = (value < bound) ⊎ (2 ^ 32 ≤ value + bound)

last-Near :
    (value : ℕ) → value < 2 ^ 32 → is_last (shift_signed value) (value % 128) ≡ true → Near 64 value
last-Near value word last = ground arith

Near-last :
    (value : ℕ) → value < 2 ^ 32 → Near 64 value → is_last (shift_signed value) (value % 128) ≡ true
Near-last value word near = ground arith

shift-Near :
    (value bound : ℕ) → value < 2 ^ 32 → Near (128 * bound) value → Near bound (shift_signed value)
shift-Near value bound word near = ground arith

signed_last :
    (value : ℕ) (rest : List ℕ)
    → value < 2 ^ 32
    → is_last (shift_signed value) (value % 128) ≡ true
    → decode_signed (value % 128 ∷ rest) ≡ some (value, rest)
unfolding decode_signed
signed_last value rest word last = elim (last-Near value word last) [
  | inl small ↦
      let low : ltb (value % 128) 64 ≡ true = ground arith in
      let same : value % 128 ≡ value = omega arith in rw (low, same) refl
  | inr large ↦
      let high : ltb (value % 128) 64 ≡ false = ground arith in
      let under : ltb (value % 128) 128 ≡ true = ground arith in
      let same : value % 128 + 2 ^ 32 - 128 ≡ value = omega arith in rw (high, under, same) refl
]

signed_more :
    (value : ℕ) (bytes rest : List ℕ)
    → value < 2 ^ 32
    → decode_signed bytes ≡ some (shift_signed value, rest)
    → decode_signed ((value % 128 + 128) ∷ bytes) ≡ some (value, rest)
unfolding decode_signed
signed_more value bytes rest word back =
    let high : ltb (value % 128 + 128) 64 ≡ false = ground arith in
    let over : ltb (value % 128 + 128) 128 ≡ false = ground arith in
    let whole : (value % 128 + 128 - 128 + 128 * shift_signed value) % 2 ^ 32 ≡ value =
      ground arith in
    rw (high, over, back, whole) refl

signed_groups :
    (fuel value : ℕ) (rest : List ℕ)
    → value < 2 ^ 32
    → Near (64 * 128 ^ fuel) value
    → Written (encode_signed (suc fuel) value) decode_signed (suc fuel) value rest
unfolding encode_signed
signed_groups zero value rest word near =
    let last : is_last (shift_signed value) (value % 128) ≡ true = Near-last value word near in
    (value % 128 ∷ [], rw last refl, signed_last value rest word last, omega arith)
signed_groups (suc fuel) value rest word near =
    elim (Bool-cases (is_last (shift_signed value) (value % 128))) [
      | inl last ↦ (value % 128 ∷ [], rw last refl, signed_last value rest word last, omega arith)
      | inr more ↦
          let (bytes, e, back, short) =
            signed_groups fuel (shift_signed value) rest (ground arith)
              (shift-Near value (64 * 128 ^ fuel) word (ground (arith, near, pow-suc 128 fuel))) in
          (
            (value % 128 + 128) ∷ bytes,
            rw (more, e) refl,
            signed_more value (bytes ++ rest) rest word back,
            omega arith,
          )
    ]

-- An int32_t, in two's complement, is written in at most five bytes, from which a reader gets the number
-- and the bytes behind it.
pub decode-encode_signed :
    (value : ℕ) (rest : List ℕ)
    → value < 2 ^ 32
    → Written (encode_signed_leb128 value) decode_signed 5 value rest
unfolding encode_signed_leb128
decode-encode_signed value rest word = signed_groups 4 value rest word (ground arith)
