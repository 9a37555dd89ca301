-- ===== src/Relocation/Pages.antt =====
-- AArch64 page addressing: the ADRP and the ADD that `evaluate` patches for the two halves of one
-- symbol's address.
use Prim.Native.Nat.{bit_and, bit_or}
use fyra.Prelude.{
  ℕ, ◌+◌, ◌-◌, ◌*◌, ◌/◌, ◌%◌, ◌^◌, ◌≤◌, ◌<◌, ◌≡◌, refl, ap, ◌∙◌, arith, ltb, if◌then◌else◌,
}
use fyra.Word.{
  add64, sub64, not64, low32, sar64, and_field, and_mask, and_cut, or_low_at, or_high_left,
}
use fyra.Relocation.Encode.{patch_adrp, patch_add_immediate}
use fyra.Relocation.Evaluate.{page_delta_of}

-- ADRP: immhi in bits 23 to 5 and immlo in bits 30 to 29, a page count of 21 bits.
abbrev pub adrp_pages : ℕ → ℕ
adrp_pages w = w / 2 ^ 5 % 2 ^ 19 * 4 + w / 2 ^ 29 % 4

-- A field of 21 bits, sign extended to 64.
abbrev pub extend21 : ℕ → ℕ
extend21 x = if ltb x (2 ^ 20) then x else x + 2 ^ 64 - 2 ^ 21

-- ADD (immediate): imm12 in bits 21 to 10.
abbrev pub add_offset : ℕ → ℕ
add_offset w = w / 2 ^ 10 % 2 ^ 12

-- The mask 0x9F00001F keeps bits 31, 28 to 24 and 4 to 0.
adrp_kept :
    (insn : ℕ)
    → bit_and insn 0x9F00001F
      ≡ insn / 2 ^ 31 % 2 * 2 ^ 31 + insn / 2 ^ 24 % 2 ^ 5 * 2 ^ 24 + insn % 2 ^ 5
adrp_kept insn =
    and_cut 24 insn 0x9F 0x1F (omega arith)
    ∙ omega (
      arith,
      and_cut 7 (insn / 2 ^ 24) 1 0x1F (omega arith),
      and_mask 1 (insn / 2 ^ 24 / 2 ^ 7),
      and_mask 5 (insn / 2 ^ 24 % 2 ^ 7),
      and_mask 5 (insn % 2 ^ 24),
    )

-- The page count's low bits, the same of the shifted count.
shifted_low : (d : ℕ) → d < 2 ^ 64 → sar64 d 2 % 2 ^ 19 ≡ d / 4 % 2 ^ 19
shifted_low d h = ground arith

patch_adrp-sum :
    (insn d : ℕ)
    → d < 2 ^ 64
    → patch_adrp insn d
      ≡ insn / 2 ^ 31 % 2 * 2 ^ 31
        + d % 4 * 2 ^ 29
        + insn / 2 ^ 24 % 2 ^ 5 * 2 ^ 24
        + d / 4 % 2 ^ 19 * 2 ^ 5
        + insn % 2 ^ 5
unfolding patch_adrp
patch_adrp-sum insn d h =
    let top = insn / 2 ^ 31 % 2 in
    let mid = insn / 2 ^ 24 % 2 ^ 5 in
    let low = insn % 2 ^ 5 in
    let lo = d % 4 in
    let hi = d / 4 % 2 ^ 19 in
    let with_lo : bit_or (top * 2 ^ 31 + mid * 2 ^ 24 + low) (lo * 2 ^ 29)
        ≡ ((top * 4 + lo) * 2 ^ 5 + mid) * 2 ^ 24 + low =
      ground (
        arith,
        or_high_left 31 top (mid * 2 ^ 24 + low) (lo * 2 ^ 29) (omega arith) (omega arith),
        or_low_at 29 lo (mid * 2 ^ 24 + low) {x = lo * 2 ^ 29} refl refl (omega arith),
      ) in
    rw (adrp_kept insn, and_mask 2 d, and_mask 19 (sar64 d 2), shifted_low d h, with_lo)
      (or_high_left 24 ((top * 4 + lo) * 2 ^ 5 + mid) low (hi * 2 ^ 5) (omega arith) (omega arith)
        ∙ omega (arith, or_low_at 5 hi low {x = hi * 2 ^ 5} {y = low} refl refl (omega arith)))

-- ADRP: the 64-bit page count, modulo 2 ^ 21, stands in the word, and the opcode and the register
-- are kept.
pub patch_adrp-fields :
    (insn d : ℕ)
    → d < 2 ^ 64
    → (adrp_pages (patch_adrp insn d) ≡ d % 2 ^ 21)
      × (patch_adrp insn d % 2 ^ 5 ≡ insn % 2 ^ 5)
      × (patch_adrp insn d / 2 ^ 24 % 2 ^ 5 ≡ insn / 2 ^ 24 % 2 ^ 5)
      × (patch_adrp insn d / 2 ^ 31 ≡ insn / 2 ^ 31 % 2)
patch_adrp-fields insn d h =
    rw (patch_adrp-sum insn d h) (omega arith, omega arith, omega arith, omega arith)

-- The mask 0xFFC003FF keeps bits 31 to 22 and 9 to 0.
add_kept : (insn : ℕ) → bit_and insn 0xFFC003FF ≡ insn / 2 ^ 22 % 2 ^ 10 * 2 ^ 22 + insn % 2 ^ 10
add_kept insn =
    and_cut 10 insn 0x3FF000 0x3FF (omega arith)
    ∙ omega (arith, and_field 10 12 (insn / 2 ^ 10), and_mask 10 (insn % 2 ^ 10))

patch_add_immediate-sum :
    (insn address : ℕ)
    → patch_add_immediate insn address
      ≡ insn / 2 ^ 22 % 2 ^ 10 * 2 ^ 22 + address % 2 ^ 12 * 2 ^ 10 + insn % 2 ^ 10
unfolding patch_add_immediate
patch_add_immediate-sum insn address =
    let field = address % 2 ^ 12 in
    let low = insn % 2 ^ 10 in
    let imm12 : bit_and (low32 address) 0xFFF ≡ field = and_mask 12 (low32 address) ∙ omega arith in
    rw (add_kept insn, imm12)
      (or_high_left 22 (insn / 2 ^ 22 % 2 ^ 10) low (field * 2 ^ 10) (omega arith) (omega arith)
        ∙ omega
            (arith, or_low_at 10 field low {x = field * 2 ^ 10} {y = low} refl refl (omega arith)))

-- ADD with an immediate: the address's low twelve bits stand in the word, and the opcode and the
-- registers are kept.
pub patch_add_immediate-fields :
    (insn address : ℕ)
    → (add_offset (patch_add_immediate insn address) ≡ address % 2 ^ 12)
      × (patch_add_immediate insn address % 2 ^ 10 ≡ insn % 2 ^ 10)
      × (patch_add_immediate insn address / 2 ^ 22 ≡ insn / 2 ^ 22 % 2 ^ 10)
patch_add_immediate-fields insn address =
    rw (patch_add_immediate-sum insn address) (omega arith, omega arith, omega arith)

-- What the pair of instructions computes at run time from the place of the ADRP.
abbrev pub pair_address : ℕ → ℕ → ℕ → ℕ
pair_address place adrp add =
    add64 (add64 (place / 2 ^ 12 * 2 ^ 12) (extend21 (adrp_pages adrp) * 2 ^ 12)) (add_offset add)

page_mask : (s : ℕ) → s < 2 ^ 64 → bit_and s (not64 0xFFF) ≡ s / 2 ^ 12 * 2 ^ 12
page_mask s h = and_field 52 12 s ∙ omega arith

page_shift :
    (s p a : ℕ)
    → s < 2 ^ 20
    → p < 2 ^ 20
    → a < 2 ^ 12
    → sar64 (sub64 (add64 (s * 2 ^ 12) a) (p * 2 ^ 12)) 12 ≡ sub64 s p
page_shift s p a hs hp ha = ground arith

-- With a small addend the page count is the distance of the symbol's page from the place's.
page_delta_value :
    (symbol place addend : ℕ)
    → symbol < 2 ^ 32
    → place < 2 ^ 32
    → addend < 2 ^ 12
    → page_delta_of symbol place addend ≡ sub64 (symbol / 2 ^ 12) (place / 2 ^ 12)
unfolding page_delta_of
page_delta_value symbol place addend hs hp ha =
    rw (page_mask symbol (omega arith), page_mask place (omega arith))
      (page_shift (symbol / 2 ^ 12) (place / 2 ^ 12) addend (omega arith) (omega arith) ha)

-- Adding the sign-extended page count to the place's page gives the symbol's page.
page_reached :
    (s p : ℕ)
    → s < 2 ^ 20
    → p < 2 ^ 20
    → add64 (p * 2 ^ 12) (extend21 (sub64 s p % 2 ^ 21) * 2 ^ 12) ≡ s * 2 ^ 12
page_reached s p hs hp = ground arith

pair_address_page :
    (symbol place addend adrp add : ℕ)
    → symbol < 2 ^ 32
    → place < 2 ^ 32
    → addend < 2 ^ 12
    → pair_address place
        (patch_adrp adrp (page_delta_of symbol place addend))
        (patch_add_immediate add (add64 symbol addend))
      ≡ symbol / 2 ^ 12 * 2 ^ 12 + (symbol + addend) % 2 ^ 12
pair_address_page symbol place addend adrp add hs hp ha =
    rw
      (
        page_delta_value symbol place addend hs hp ha,
        (patch_adrp-fields adrp (sub64 (symbol / 2 ^ 12) (place / 2 ^ 12)) (omega arith)).0,
        (patch_add_immediate-fields add (add64 symbol addend)).0,
        page_reached (symbol / 2 ^ 12) (place / 2 ^ 12) (omega arith) (omega arith),
      )
      (omega arith)

-- Where symbol and place lie below 4 GiB and an addend of less than a page leads into the next
-- page, the two patched words reach an address one page short of S + A.
pub pair_address-across_page :
    (symbol place addend adrp add : ℕ)
    → symbol < 2 ^ 32
    → place < 2 ^ 32
    → addend < 2 ^ 12
    → 2 ^ 12 ≤ symbol % 2 ^ 12 + addend
    → pair_address place
          (patch_adrp adrp (page_delta_of symbol place addend))
          (patch_add_immediate add (add64 symbol addend))
        + 2 ^ 12
      ≡ symbol + addend
pair_address-across_page symbol place addend adrp add hs hp ha over =
    ap (λ (t : ℕ). t + 2 ^ 12) (pair_address_page symbol place addend adrp add hs hp ha)
    ∙ omega arith
