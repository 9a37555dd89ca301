-- ===== src/Linker/Layout/Step.antt =====
-- One input section joins a merge.
use fyra.Prelude.{
  ℕ, suc, ◌+◌, ◌-◌, ◌*◌, ◌/◌, ◌^◌, ◌≤◌, ◌<◌, ◌≡◌, sym, ap, ◌∙◌, arith, String, true, false, List,
  [], ◌∷◌, ◌++◌, ltb, inl, inr, Bool-cases, length, take, drop, replicate, length-append,
  length-replicate, drop-append, take-append, append-nil, append_assoc,
}
use fyra.Prelude.Texts.{eq_refl}
use native.Mathlib.Nat.{mod-eq_of_lt}
use fyra.Word.{align_up, align_up-two_pow, align_up_bounds}
use fyra.Object.{ObjectSection}
use fyra.Linker.Layout.Place.{
  SectionPlacement, Merge, offset_in_output, section_alignment, is_bss, pad_to, place_section,
}
use fyra.Linker.Layout.Matches.{has_placement, has_placement-append, offset_in_output-append}
use fyra.Linker.Layout.Stands.{Stands, Grows, PowerOfTwo, Ready}

pad_to-append : (o : ℕ) (bs : List ℕ) → pad_to o bs ≡ bs ++ replicate (o - length bs) 0
unfolding pad_to
pad_to-append o bs = elim (Bool-cases (ltb (length bs) o)) [
  | inl longer ↦ rw longer
  | inr same ↦ rw (same, nothing same) (sym (append-nil bs))
]
  where
    nothing : ltb (length bs) o ≡ false → o - length bs ≡ 0
    nothing h = ground arith

-- Where the offset comes to, and why the aligned start is not before it.
start_bounds :
    (sec : ObjectSection) (offset : ℕ)
    → PowerOfTwo (section_alignment sec)
    → offset + section_alignment sec < 2 ^ 64
    → (offset ≤ align_up offset (section_alignment sec))
      × (align_up offset (section_alignment sec) < offset + section_alignment sec)
      × ((q : ℕ) × (align_up offset (section_alignment sec) ≡ q * section_alignment sec))
start_bounds sec offset (j, k, e, a) h = rw a (
  (align_up_bounds offset j k e (rw a at le)).0,
  (align_up_bounds offset j k e (rw a at le)).1,
  ((offset + (2 ^ k - 1)) / 2 ^ k, align_up-two_pow offset j k e (rw a at le)),
)
  where
    le : offset + section_alignment sec ≤ 2 ^ 64
    le = omega arith

pub record Step (name : String) (index : ℕ) (sec : ObjectSection) (m m' : Merge) : Type 0 where
  pub ready : Ready name (suc index) m'
  pub stands : Stands name index (section_alignment sec) sec.bytes m'
  pub grows : Grows m m'
  pub bounded : m'.offset ≤ m.offset + section_alignment sec + length sec.bytes

last_slice : (n : ℕ) (xs ys : List ℕ) → length xs ≡ n → take (length ys) (drop n (xs ++ ys)) ≡ ys
last_slice n xs ys e =
    rw (← e, drop-append xs ys) (ap (take (length ys)) (sym (append-nil ys)) ∙ take-append ys [])

-- The placement of a section at `start`.
abbrev placement_at : String → ℕ → ObjectSection → ℕ → SectionPlacement
placement_at name index sec start = record {
  artifact_index = index;
  section_name = name;
  output_offset = start;
  size = length sec.bytes;
}

module _ (name : String) (index : ℕ) (sec : ObjectSection) (m m' : Merge) (start : ℕ)
    (r : Ready name index m) (after : m.offset ≤ start)
    (offset_is : m'.offset ≡ start + length sec.bytes)
    (bytes_are : m'.bytes ≡ m.bytes ++ (replicate (start - length m.bytes) 0 ++ sec.bytes))
    (placements_are : m'.placements
      ≡ m.placements ++ (placement_at name index sec start ∷ [])) where
  filled_before : length (m.bytes ++ replicate (start - length m.bytes) 0) ≡ start
  filled_before = omega (
    arith,
    r.filled,
    length-append m.bytes (replicate (start - length m.bytes) 0),
    length-replicate (start - length m.bytes) (let z : ℕ = 0 in z),
  )

  bytes_split : m'.bytes ≡ (m.bytes ++ replicate (start - length m.bytes) 0) ++ sec.bytes
  bytes_split =
      bytes_are ∙ sym (append_assoc m.bytes (replicate (start - length m.bytes) 0) sec.bytes)

  length_is : length m'.bytes ≡ start + length sec.bytes
  length_is =
      ap length bytes_split
      ∙ omega (
        arith,
        filled_before,
        length-append (m.bytes ++ replicate (start - length m.bytes) 0) sec.bytes,
      )

  here : has_placement (placement_at name index sec start ∷ []) index name ≡ true
  unfolding has_placement
  here = ground (arith, eq_refl name)

  not_here :
      (j : ℕ)
      → suc index ≤ j
      → has_placement (placement_at name index sec start ∷ []) j name ≡ false
  unfolding has_placement
  not_here j h = ground arith

  found_at : offset_in_output m'.placements index name ≡ start
  unfolding offset_in_output
  found_at =
      rw
        (
          placements_are,
          offset_in_output-append m.placements (placement_at name index sec start ∷ []) index name,
          r.fresh index (omega arith),
        )
        (ground (arith, eq_refl name))

  step_Ready : Ready name (suc index) m'
  step_Ready = record {
    filled = length_is ∙ sym offset_is;
    fresh = λ j h.
        rw
          (
            placements_are,
            has_placement-append m.placements (placement_at name index sec start ∷ []) j name,
            r.fresh j (omega arith),
          )
          (not_here j h);
  }

  step_Grows : Grows m m'
  step_Grows = record {
    more_bytes = replicate (start - length m.bytes) 0 ++ sec.bytes;
    more_placements = placement_at name index sec start ∷ [];
    bytes_grow = bytes_are;
    placements_grow = placements_are;
  }

  step_Stands : (align q : ℕ) → start ≡ q * align → Stands name index align sec.bytes m'
  step_Stands align q e = record {
    placed =
        rw
          (
            placements_are,
            has_placement-append m.placements (placement_at name index sec start ∷ []) index name,
            r.fresh index (omega arith),
          )
          here;
    within = rw (found_at, length_is) (omega arith);
    contents =
        rw (found_at, bytes_split)
          (last_slice start (m.bytes ++ replicate (start - length m.bytes) 0) sec.bytes
            filled_before);
    quotient = q;
    aligned = found_at ∙ e;
  }

pub place_section-Step :
    (name : String) (index : ℕ) (sec : ObjectSection) (m : Merge)
    → is_bss name ≡ false
    → PowerOfTwo (section_alignment sec)
    → m.offset + section_alignment sec + length sec.bytes < 2 ^ 64
    → Ready name index m
    → Step name index sec m (place_section name index sec m)
unfolding place_section
place_section-Step name index sec m plain two fits r =
    let start = align_up m.offset (section_alignment sec) in
    let m' = place_section name index sec m in
    let (after, before, (q, multiple)) = start_bounds sec m.offset two (omega arith) in
    let offset_is : m'.offset ≡ start + length sec.bytes = rw plain (mod-eq_of_lt (omega arith)) in
    let bytes_are : m'.bytes ≡ m.bytes ++ (replicate (start - length m.bytes) 0 ++ sec.bytes) =
      rw (plain, pad_to-append start m.bytes) (append_assoc m.bytes _ sec.bytes) in
    let placements_are : m'.placements ≡ m.placements ++ (placement_at name index sec start ∷ []) =
      rw plain in
    record {
      ready = step_Ready name index sec m m' start r after offset_is bytes_are placements_are;
      stands =
          step_Stands name index sec m m' start r after offset_is bytes_are placements_are
            (section_alignment sec) q multiple;
      grows = step_Grows name index sec m m' start r after offset_is bytes_are placements_are;
      bounded = omega (arith, offset_is);
    }
