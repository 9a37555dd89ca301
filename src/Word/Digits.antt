-- ===== src/Word/Digits.antt =====
-- `&` and `|` act field by field: where both words are cut at the same bit, the operation of the
-- whole is made of the operations of the parts. Masks and disjoint fields follow.
use Prim.Native.Nat.{min, max, bit_and, bit_or, digits, bit_and-bitwise, bit_or-bitwise}
use native.Mathlib.Nat.{pow-suc, one-le-pow, mod-lt, div-add-mod'}
use fyra.Prelude.{ℕ, zero, suc, ◌+◌, ◌-◌, ◌*◌, ◌/◌, ◌%◌, ◌^◌, ◌≤◌, ◌<◌, ◌≡◌, refl, ap, arith}

-- The native operations stand for a recursion on binary digits, on fuel. Fuel beyond the first word
-- changes nothing.
module _ (base : ℕ → ℕ) (join : ℕ → ℕ → ℕ) where
  spare_fuel :
      (x y fuel more : ℕ)
      → x ≤ fuel
      → fuel ≤ more
      → digits base join more x y ≡ digits base join fuel x y
  spare_fuel (suc x) y (suc fuel) (suc more) low high =
      rw (spare_fuel (suc x / 2) (y / 2) fuel more (omega arith) (omega arith))
  spare_fuel (suc x) y (suc fuel) zero low high = absurd (omega arith)
  spare_fuel (suc x) y zero more low high = absurd (omega arith)
  spare_fuel zero y (suc fuel) (suc more) low high = refl
  spare_fuel zero y (suc fuel) zero low high = refl
  spare_fuel zero y zero (suc more) low high = refl
  spare_fuel zero y zero zero low high = refl

  half_fuel :
      (x y : ℕ) → digits base join x (suc x / 2) y ≡ digits base join (suc x / 2) (suc x / 2) y
  half_fuel x y = spare_fuel (suc x / 2) y (suc x / 2) x (omega arith) (omega arith)

-- So each operation has one equation for its lowest digit.
and_digit : (x y : ℕ) → bit_and x y ≡ bit_and (x / 2) (y / 2) * 2 + min (x % 2) (y % 2)
and_digit (suc x) y = simp bit_and-bitwise (omega (arith, half_fuel (λ rest. 0) min x (y / 2)))
and_digit zero y = simp bit_and-bitwise (omega arith)

or_digit : (x y : ℕ) → bit_or x y ≡ bit_or (x / 2) (y / 2) * 2 + max (x % 2) (y % 2)
or_digit (suc x) y = simp bit_or-bitwise (omega (arith, half_fuel (λ rest. rest) max x (y / 2)))
or_digit zero y = simp bit_or-bitwise (omega arith)

double : (q k : ℕ) → q * 2 ^ suc k ≡ 2 * (q * 2 ^ k)
double q k = omega (arith, ap (λ (t : ℕ). q * t) (pow-suc 2 k))

pub and_split :
    (k x y q m : ℕ)
    → y < 2 ^ k
    → m < 2 ^ k
    → bit_and (x * 2 ^ k + y) (q * 2 ^ k + m) ≡ bit_and x q * 2 ^ k + bit_and y m
and_split zero x y q m hy hm = ground arith
and_split (suc k) x y q m hy hm = ground (
  arith,
  and_digit (x * 2 ^ suc k + y) (q * 2 ^ suc k + m),
  and_digit y m,
  double x k,
  double q k,
  double (bit_and x q) k,
  pow-suc 2 k,
  and_split k x (y / 2) q (m / 2) (omega (arith, pow-suc 2 k)) (omega (arith, pow-suc 2 k)),
)

pub or_split :
    (k x y q m : ℕ)
    → y < 2 ^ k
    → m < 2 ^ k
    → bit_or (x * 2 ^ k + y) (q * 2 ^ k + m) ≡ bit_or x q * 2 ^ k + bit_or y m
or_split zero x y q m hy hm = ground arith
or_split (suc k) x y q m hy hm = ground (
  arith,
  or_digit (x * 2 ^ suc k + y) (q * 2 ^ suc k + m),
  or_digit y m,
  double x k,
  double q k,
  double (bit_or x q) k,
  pow-suc 2 k,
  or_split k x (y / 2) q (m / 2) (omega (arith, pow-suc 2 k)) (omega (arith, pow-suc 2 k)),
)

-- Zero on either side, by strong recursion on a bound.
and_zero_below : (n a : ℕ) → a ≤ n → bit_and a 0 ≡ 0
and_zero_below n zero h = refl
and_zero_below zero (suc a) h = absurd (omega arith)
and_zero_below (suc n) (suc a) h =
    omega (arith, and_digit (suc a) 0, and_zero_below n (suc a / 2) (omega arith))

pub and-zero : (a : ℕ) → bit_and a 0 ≡ 0
and-zero a = and_zero_below a a (omega arith)

or_zero_below : (n a : ℕ) → a ≤ n → bit_or a 0 ≡ a
or_zero_below n zero h = refl
or_zero_below zero (suc a) h = absurd (omega arith)
or_zero_below (suc n) (suc a) h =
    omega (arith, or_digit (suc a) 0, or_zero_below n (suc a / 2) (omega arith))

pub or-zero : (a : ℕ) → bit_or a 0 ≡ a
or-zero a = or_zero_below a a (omega arith)

pub zero-and : (b : ℕ) → bit_and 0 b ≡ 0
zero-and b = bit_and-bitwise 0 b

pub zero-or : (b : ℕ) → bit_or 0 b ≡ b
zero-or b = bit_or-bitwise 0 b

-- A word that fits `k` bits passes a mask of `k` ones unchanged.
and_fits : (k r : ℕ) → r < 2 ^ k → bit_and r (2 ^ k - 1) ≡ r
and_fits zero r h = ground (arith, and-zero r)
and_fits (suc k) r h =
    ground (arith, and_digit r (2 ^ suc k - 1), pow-suc 2 k, one-le-pow k 2, and_fits k (r / 2))

pub two_pow_pos : (k : ℕ) → 0 < 2 ^ k
two_pow_pos k = one-le-pow k 2 (omega arith)

cut : (k a : ℕ) → a / 2 ^ k * 2 ^ k + a % 2 ^ k ≡ a
cut k a = div-add-mod' a (2 ^ k)

-- A mask of `k` ones keeps the low `k` bits.
pub and_mask : (k a : ℕ) → bit_and a (2 ^ k - 1) ≡ a % 2 ^ k
and_mask k a = ground (
  arith,
  two_pow_pos k,
  cut k a,
  mod-lt a {m = 2 ^ k} (two_pow_pos k),
  and_split k (a / 2 ^ k) (a % 2 ^ k) 0 (2 ^ k - 1),
  and-zero (a / 2 ^ k),
  and_fits k (a % 2 ^ k),
)

-- A mask of `w` ones from bit `s` keeps one field in its place.
pub and_field : (w s a : ℕ) → bit_and a ((2 ^ w - 1) * 2 ^ s) ≡ a / 2 ^ s % 2 ^ w * 2 ^ s
and_field w s a = ground (
  arith,
  two_pow_pos s,
  cut s a,
  mod-lt a {m = 2 ^ s} (two_pow_pos s),
  and_split s (a / 2 ^ s) (a % 2 ^ s) (2 ^ w - 1) 0,
  and-zero (a % 2 ^ s),
  and_mask w (a / 2 ^ s),
)

-- Disjoint fields: `|` is `+`.
pub or_fields : (k q r : ℕ) → r < 2 ^ k → bit_or (q * 2 ^ k) r ≡ q * 2 ^ k + r
or_fields k q r h = ground (arith, or_split k q 0 0 r, or-zero q, zero-or r, one-le-pow k 2)

-- The operation of a word with a mask that is written in two parts.
pub and_cut :
    (k a q m : ℕ)
    → m < 2 ^ k
    → bit_and a (q * 2 ^ k + m) ≡ bit_and (a / 2 ^ k) q * 2 ^ k + bit_and (a % 2 ^ k) m
and_cut k a q m h =
    ground (
      arith,
      cut k a,
      mod-lt a {m = 2 ^ k} (two_pow_pos k),
      and_split k (a / 2 ^ k) (a % 2 ^ k) q m,
    )

pub two_pow_add : (j k : ℕ) → 2 ^ (j + k) ≡ 2 ^ j * 2 ^ k
two_pow_add zero k = ground arith
two_pow_add (suc j) k = rw (suc_add, pow-suc 2 (j + k), pow-suc 2 j, two_pow_add j k) (omega arith)
  where
    suc_add : suc j + k ≡ suc (j + k)
    suc_add = omega arith

-- The same where the two words are known only up to an equation.
pub or_at : (k q r : ℕ) {x y : ℕ} → x ≡ q * 2 ^ k → y ≡ r → r < 2 ^ k → bit_or x y ≡ q * 2 ^ k + r
or_at k q r ex ey h = rw (ex, ey) (or_fields k q r h)

pub or_low_at :
    (k q r : ℕ) {x y : ℕ} → x ≡ q * 2 ^ k → y ≡ r → r < 2 ^ k → bit_or y x ≡ q * 2 ^ k + r
or_low_at k q r ex ey h =
    rw (ex, ey) (ground (arith, or_split k 0 r q 0, zero-or q, or-zero r, two_pow_pos k))

-- A field that only one of the two words has.
pub or_high_right :
    (k a q m : ℕ) → a < 2 ^ k → m < 2 ^ k → bit_or a (q * 2 ^ k + m) ≡ q * 2 ^ k + bit_or a m
or_high_right k a q m ha hm = ground (arith, or_split k 0 a q m, zero-or q)

pub or_high_left :
    (k q y m : ℕ) → y < 2 ^ k → m < 2 ^ k → bit_or (q * 2 ^ k + y) m ≡ q * 2 ^ k + bit_or y m
or_high_left k q y m hy hm = ground (arith, or_split k q y 0 m, or-zero q)
