-- ===== src/Linker/Layout/Stands.antt =====
-- What it means that an input section stands in a merge, and that a merge only grows behind.
use fyra.Prelude.{
  ℕ, ◌+◌, ◌*◌, ◌^◌, ◌≤◌, ◌≡◌, ◌∙◌, arith, String, true, false, Option, none, some, List, [], ◌∷◌,
  ◌++◌, length, take, drop, length-append, drop-append_left, take-append_left, length-drop,
}
use fyra.Object.{ObjectArtifact, ObjectSection, find_section}
use fyra.Linker.Layout.Place.{
  SectionPlacement, Merge, offset_in_output, section_alignment, placed_size,
}
use fyra.Linker.Layout.Matches.{has_placement, has_placement-append, offset_in_output-append}

-- In the merge `m`, the section `xs` of an artifact stands at its placement, at a multiple of `align`.
pub record Stands (name : String) (index align : ℕ) (xs : List ℕ) (m : Merge) : Type 0 where
  pub placed : has_placement m.placements index name ≡ true
  pub within : offset_in_output m.placements index name + length xs ≤ length m.bytes
  pub contents : take (length xs) (drop (offset_in_output m.placements index name) m.bytes) ≡ xs
  pub quotient : ℕ
  pub aligned : offset_in_output m.placements index name ≡ quotient * align

-- A merge only grows behind: more bytes, more placements.
pub record Grows (m m' : Merge) : Type 0 where
  pub more_bytes : List ℕ
  pub more_placements : List SectionPlacement
  pub bytes_grow : m'.bytes ≡ m.bytes ++ more_bytes
  pub placements_grow : m'.placements ≡ m.placements ++ more_placements

slice_kept :
    (n k : ℕ) (xs ys zs : List ℕ)
    → n + length xs ≤ length ys
    → take (length xs) (drop n (ys ++ zs)) ≡ take (length xs) (drop n ys)
slice_kept n k xs ys zs h =
    rw (drop-append_left n ys zs (omega arith))
      (take-append_left (length xs) (drop n ys) zs (omega (arith, length-drop n ys)))

pub Grows-Stands :
    (name : String) (index align : ℕ) (xs : List ℕ) (m m' : Merge)
    → Grows m m'
    → Stands name index align xs m
    → Stands name index align xs m'
Grows-Stands name index align xs m m' g s = record {
  placed =
      rw (
        g.placements_grow,
        has_placement-append m.placements g.more_placements index name,
        s.placed,
      );
  within = rw (same, g.bytes_grow) (omega (arith, s.within, length-append m.bytes g.more_bytes));
  contents = rw (same, g.bytes_grow) (slice_kept _ 0 xs m.bytes g.more_bytes s.within ∙ s.contents);
  quotient = s.quotient;
  aligned = same ∙ s.aligned;
}
  where
    same : offset_in_output m'.placements index name ≡ offset_in_output m.placements index name
    same = rw (
      g.placements_grow,
      offset_in_output-append m.placements g.more_placements index name,
      s.placed,
    )

-- The hypotheses on the input sections of one name: each alignment a power of two, and the sizes and
-- the alignments together below 2 ^ 64.
abbrev pub PowerOfTwo : ℕ → Type 0
PowerOfTwo a = (j k : ℕ) × (j + k ≡ 64) × (a ≡ 2 ^ k)

abbrev pub AlignedSection : Option ObjectSection → Type 0
AlignedSection none = Unit
AlignedSection (some sec) = PowerOfTwo (section_alignment sec)

abbrev pub AlignedInput : String → List ObjectArtifact → Type 0
AlignedInput name [] = Unit
AlignedInput name (art ∷ arts) = AlignedSection (find_section art name) × AlignedInput name arts

abbrev pub room_of : String → Option ObjectSection → ℕ
room_of name none = 0
room_of name (some sec) = section_alignment sec + placed_size name sec

abbrev pub room : String → List ObjectArtifact → ℕ
room name [] = 0
room name (art ∷ arts) = room_of name (find_section art name) + room name arts

-- While artifacts from `index` on are to come, the bytes reach to the offset and no placement of
-- theirs is there.
pub record Ready (name : String) (index : ℕ) (m : Merge) : Type 0 where
  pub filled : length m.bytes ≡ m.offset
  pub fresh : (j : ℕ) → index ≤ j → has_placement m.placements j name ≡ false
