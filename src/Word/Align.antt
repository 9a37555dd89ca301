-- ===== src/Word/Align.antt =====
-- target/artifact/linker/InternalLinker.cpp: `alignUp`, by the mask `~(align - 1)`.
use Prim.Native.Nat.{bit_and}
use native.Mathlib.Nat.{mod-lt, mod-eq_of_lt, div-add-mod'}
use fyra.Prelude.{
  ℕ, ◌+◌, ◌-◌, ◌*◌, ◌/◌, ◌^◌, ◌≤◌, ◌<◌, ◌≡◌, sym, ap, ◌∙◌, inl, inr, arith, true, leb, leb→le,
  Bool-cases, zero, suc, if◌then◌else◌,
}
use fyra.Word.Ops.{add64, sub64, not64}
use fyra.Word.Digits.{and_field, two_pow_pos, two_pow_add}

unfoldable pub align_up : ℕ → ℕ → ℕ
align_up offset align =
    if leb align 1 then offset else bit_and (sub64 (add64 offset align) 1) (not64 (sub64 align 1))

-- `offset + align - 1` and `~(align - 1)` where the sum does not wrap.
round_sum : (x p : ℕ) → 0 < p → x + p ≤ 2 ^ 64 → sub64 (add64 x p) 1 ≡ x + (p - 1)
round_sum x p hp h = ground arith

round_mask : (p m : ℕ) → 0 < p → m * p ≡ 2 ^ 64 → not64 (sub64 p 1) ≡ (m - 1) * p
round_mask p zero hp h = ground arith
round_mask p (suc m) hp h = let e : suc m - 1 ≡ m = omega arith in rw e (omega arith)

quotient_below : (x p m : ℕ) → 0 < p → x < m * p → x / p < m
quotient_below x p m hp h = grind (arith, div-add-mod' x p)

-- For an alignment 2 ^ k, where the sum does not wrap, the mask rounds up to the next multiple.
pub align_up-two_pow :
    (offset j k : ℕ)
    → j + k ≡ 64
    → offset + 2 ^ k ≤ 2 ^ 64
    → align_up offset (2 ^ k) ≡ (offset + (2 ^ k - 1)) / 2 ^ k * 2 ^ k
unfolding align_up
align_up-two_pow offset j k e fits = elim (Bool-cases (leb (2 ^ k) 1)) [
  | inl one ↦ rw (one, exactly_one one) (omega arith)
  | inr more ↦ rw (
    more,
    round_sum offset (2 ^ k) (two_pow_pos k) fits,
    round_mask (2 ^ k) (2 ^ j) (two_pow_pos k) whole,
    and_field j k (offset + (2 ^ k - 1)),
    mod-eq_of_lt below,
  )
]
  where
    exactly_one : leb (2 ^ k) 1 ≡ true → 2 ^ k ≡ 1
    exactly_one h = omega (arith, two_pow_pos k, leb→le (2 ^ k) 1 h)

    whole : 2 ^ j * 2 ^ k ≡ 2 ^ 64
    whole = sym (two_pow_add j k) ∙ ap (λ (t : ℕ). 2 ^ t) e

    below : (offset + (2 ^ k - 1)) / 2 ^ k < 2 ^ j
    below = quotient_below _ (2 ^ k) (2 ^ j) (two_pow_pos k) (omega (arith, whole, two_pow_pos k))

pub align_up_bounds :
    (offset j k : ℕ)
    → j + k ≡ 64
    → offset + 2 ^ k ≤ 2 ^ 64
    → (offset ≤ align_up offset (2 ^ k)) × (align_up offset (2 ^ k) < offset + 2 ^ k)
align_up_bounds offset j k e fits = rw (align_up-two_pow offset j k e fits) (rounded.0, rounded.1)
  where
    rounded :
        (offset ≤ (offset + (2 ^ k - 1)) / 2 ^ k * 2 ^ k)
        × ((offset + (2 ^ k - 1)) / 2 ^ k * 2 ^ k < offset + 2 ^ k)
    rounded = omega (
      arith,
      two_pow_pos k,
      div-add-mod' (offset + (2 ^ k - 1)) (2 ^ k),
      mod-lt (offset + (2 ^ k - 1)) (two_pow_pos k),
    )
