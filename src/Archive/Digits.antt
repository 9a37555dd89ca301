-- ===== src/Archive/Digits.antt =====
-- parseDecimal on a field of digits that is filled up with blanks.
use fyra.Prelude.{
  ℕ, zero, suc, ◌+◌, ◌-◌, ◌*◌, ◌^◌, ◌<◌, ◌≤◌, ◌≡◌, refl, ap, arith, true, false, List, [], ◌∷◌,
  ◌++◌, ==_iff, ltb, lt→ltb, length, All,
}
use fyra.Archive.Decimal.{is_blank, trim_end, is_decimal, digits_value, parse_decimal}

-- The number that the digits write, with the value of what stands before them.
abbrev pub number : ℕ → List ℕ → ℕ
number value [] = value
number value (c ∷ cs) = number (value * 10 + (c - 48)) cs

abbrev pub IsDigit : ℕ → Type 0
IsDigit c = (48 ≤ c) × (c ≤ 57)

digits_value-number :
    (value : ℕ) (digits : List ℕ)
    → All IsDigit digits
    → digits_value value digits ≡ number value digits
digits_value-number value [] all = refl
digits_value-number value (c ∷ cs) ((low, high), all) =
    let rest = digits_value-number (value * 10 + (c - 48)) cs all in
    let here : is_decimal c ≡ true = ground arith in rw here rest

abbrev tens : ℕ → ℕ
tens zero = 1
tens (suc n) = 10 * tens n

tens-pos : (n : ℕ) → 1 ≤ tens n
tens-pos zero = omega arith
tens-pos (suc n) = omega (arith, tens-pos n)

tens-le : (n k : ℕ) → n ≤ k → tens n ≤ tens k
tens-le zero k le = tens-pos k
tens-le (suc n) zero le = absurd (omega (arith, le))
tens-le (suc n) (suc k) le = omega (arith, tens-le n k (omega (arith, le)))

times_ten : (a b t : ℕ) → a ≤ 10 * b → a * t ≤ b * (10 * t)
times_ten a b t le =
    let k = 10 * b - a in
    let split : a + k ≡ 10 * b = omega (arith, le) in
    let both : (a + k) * t ≡ (10 * b) * t = ap (λ x. x * t) split in
    let e : a * t + k * t ≡ b * (10 * t) = grind (arith, both) in omega (arith, e)

number-bound :
    (value : ℕ) (digits : List ℕ)
    → All IsDigit digits
    → number value digits < (value + 1) * tens (length digits)
number-bound value [] all = omega arith
number-bound value (c ∷ cs) ((low, high), all) = omega (
  arith,
  number-bound (value * 10 + (c - 48)) cs all,
  times_ten (value * 10 + (c - 48) + 1) (value + 1) (tens (length cs)) (omega (arith, low, high)),
)

trim_end-blanks : (blanks : List ℕ) → All (λ c. c ≡ 32) blanks → trim_end blanks ≡ []
trim_end-blanks [] all = refl
trim_end-blanks (c ∷ cs) (e, all) = rw (trim_end-blanks cs all, e) refl

trim_end-digits :
    (digits blanks : List ℕ)
    → All IsDigit digits
    → All (λ c. c ≡ 32) blanks
    → trim_end (digits ++ blanks) ≡ digits
trim_end-digits [] blanks all blank = trim_end-blanks blanks blank
trim_end-digits (c ∷ []) blanks ((low, high), all) blank =
    rw (trim_end-blanks blanks blank)
      (let apart : is_blank c ≡ false = ground (arith, ==_iff c 32, ==_iff c 9) in rw apart refl)
trim_end-digits (c ∷ d ∷ ds) blanks (here, all) blank =
    rw (trim_end-digits (d ∷ ds) blanks all blank) refl

-- A digit and more, ten at most, with blanks behind them.
pub parse_decimal-number :
    (c : ℕ) (digits blanks : List ℕ)
    → IsDigit c
    → All IsDigit digits
    → All (λ b. b ≡ 32) blanks
    → length digits < 10
    → parse_decimal (c ∷ (digits ++ blanks)) ≡ number 0 (c ∷ digits)
unfolding parse_decimal
parse_decimal-number c digits blanks (low, high) all blank short =
    let solid : is_blank c ≡ false = ground (arith, ==_iff c 32, ==_iff c 9) in
    let digit : is_decimal c ≡ true = ground arith in
    let value = digits_value-number 0 (c ∷ digits) ((low, high), all) in
    let bound = number-bound 0 (c ∷ digits) ((low, high), all) in
    let small = tens-le (length (c ∷ digits)) 10 (omega (arith, short)) in
    let room : ltb (number 0 (c ∷ digits)) (2 ^ 64) ≡ true =
      lt→ltb (number 0 (c ∷ digits)) (2 ^ 64) (omega (arith, bound, small)) in
    rw (solid, trim_end-digits (c ∷ digits) blanks ((low, high), all) blank, digit)
      (let v : digits_value (0 * 10 + (c - 48)) digits ≡ number 0 (c ∷ digits) =
          digits_value-number (0 * 10 + (c - 48)) digits all in
        rw (v, room) refl)
