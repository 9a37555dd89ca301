-- ===== src/Archive/Decimal.antt =====
-- parseDecimal, with the `std::from_chars` of unsigned decimal numbers that it uses. A text is a list of bytes.
use fyra.Prelude.{
  ℕ, ◌+◌, ◌-◌, ◌*◌, ◌^◌, Bool, ◌&&◌, ◌||◌, Option, none, some, List, [], ◌∷◌, ◌==◌, leb, ltb,
  if◌then◌else◌,
}

abbrev pub is_blank : ℕ → Bool
is_blank c = c == b' ' || c == b'\t'

abbrev pub trim_start : List ℕ → List ℕ
trim_start [] = []
trim_start (c ∷ cs) = let rest = trim_start cs in if is_blank c then rest else c ∷ cs

abbrev pub blank_end : ℕ → List ℕ → List ℕ
blank_end c [] = if is_blank c then [] else c ∷ []
blank_end c (d ∷ ds) = c ∷ d ∷ ds

abbrev pub trim_end : List ℕ → List ℕ
trim_end [] = []
trim_end (c ∷ cs) = blank_end c (trim_end cs)

abbrev pub is_decimal : ℕ → Bool
is_decimal c = leb b'0' c && leb c b'9'

-- The number that the digits up to the first other character make.
abbrev pub digits_value : ℕ → List ℕ → ℕ
digits_value value [] = value
digits_value value (c ∷ cs) =
    let rest = digits_value (value * 10 + (c - b'0')) cs in if is_decimal c then rest else value

abbrev pub in_range : ℕ → Option ℕ
in_range value = if ltb value (2 ^ 64) then some value else none

-- `none` is an error: no digit, or a number that does not fit.
abbrev pub from_chars : List ℕ → Option ℕ
from_chars [] = none
from_chars (c ∷ cs) = if is_decimal c then in_range (digits_value 0 (c ∷ cs)) else none

abbrev pub or_zero : Option ℕ → ℕ
or_zero none = 0
or_zero (some value) = value

unfoldable pub parse_decimal : List ℕ → ℕ
parse_decimal buf = or_zero (from_chars (trim_end (trim_start buf)))
