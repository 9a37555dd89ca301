-- ===== src/Word/Ops.antt =====
-- The operations on uint64_t and int64_t. A value of type int64_t is the number below 2 ^ 64 with
-- the same bits, so a cast between the two types is no operation.
use fyra.Prelude.{ℕ, ◌+◌, ◌-◌, ◌/◌, ◌%◌, ◌^◌, Bool, ltb, leb, if◌then◌else◌}

abbrev pub add64 : ℕ → ℕ → ℕ
add64 a b = (a + b) % 2 ^ 64

abbrev pub sub64 : ℕ → ℕ → ℕ
sub64 a b = (a + 2 ^ 64 - b) % 2 ^ 64

-- `~a`
abbrev pub not64 : ℕ → ℕ
not64 a = 2 ^ 64 - 1 - a

-- static_cast<uint32_t>
abbrev pub low32 : ℕ → ℕ
low32 a = a % 2 ^ 32

-- `d / 4` on int64_t rounds towards zero.
abbrev pub div4 : ℕ → ℕ
div4 d = if ltb d (2 ^ 63) then d / 4 else (2 ^ 64 - (2 ^ 64 - d) / 4) % 2 ^ 64

-- `d >> k` on int64_t copies the sign bit.
abbrev pub sar64 : ℕ → ℕ → ℕ
sar64 d k = if ltb d (2 ^ 63) then d / 2 ^ k else 2 ^ 64 - 1 - (2 ^ 64 - 1 - d) / 2 ^ k

-- The int64_t `d` fits int32_t.
abbrev pub fits_int32 : ℕ → Bool
fits_int32 d = if ltb d (2 ^ 63) then ltb d (2 ^ 31) else leb (2 ^ 64 - 2 ^ 31) d
