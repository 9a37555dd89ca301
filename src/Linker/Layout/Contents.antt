-- ===== src/Linker/Layout/Contents.antt =====
-- The merging of one output section keeps every input section: its bytes stand, whole and at its
-- alignment, where its placement says.
use fyra.Prelude.{
  ℕ, suc, ◌+◌, ◌^◌, ◌≤◌, ◌<◌, ◌≡◌, sym, ap, ◌∙◌, arith, String, true, false, Option, none, some,
  List, [], ◌∷◌, ◌++◌, inl, inr, Bool-cases, length, append-nil, append_assoc,
}
use fyra.Object.{ObjectArtifact, ObjectSection, find_section}
use fyra.Linker.Layout.Place.{
  Merge, has_nothing, section_alignment, is_bss, placed_size, place_found, place_artifacts,
}
use fyra.Linker.Layout.Stands.{
  Stands, Grows, Grows-Stands, AlignedSection, AlignedInput, room_of, room, Ready,
}
use fyra.Linker.Layout.Step.{place_section-Step}

Grows-refl : (m : Merge) → Grows m m
Grows-refl m = record {
  more_bytes = [];
  more_placements = [];
  bytes_grow = sym (append-nil m.bytes);
  placements_grow = sym (append-nil m.placements);
}

Grows-trans : {m m' m'' : Merge} → Grows m m' → Grows m' m'' → Grows m m''
Grows-trans {m} g h = record {
  more_bytes = g.more_bytes ++ h.more_bytes;
  more_placements = g.more_placements ++ h.more_placements;
  bytes_grow =
      h.bytes_grow
      ∙ ap (λ t. t ++ h.more_bytes) g.bytes_grow
      ∙ append_assoc m.bytes g.more_bytes h.more_bytes;
  placements_grow =
      h.placements_grow
      ∙ ap (λ t. t ++ h.more_placements) g.placements_grow
      ∙ append_assoc m.placements g.more_placements h.more_placements;
}

Ready-suc : {name : String} {index : ℕ} {m : Merge} → Ready name index m → Ready name (suc index) m
Ready-suc r = record { filled = r.filled; fresh = λ j h. r.fresh j (omega arith) }

-- The section of one artifact, if it has one that is not empty, stands in the merge.
abbrev pub StandsFor : String → ℕ → Option ObjectSection → Merge → Type 0
StandsFor name index none m = Unit
StandsFor name index (some sec) m =
    has_nothing sec ≡ false → Stands name index (section_alignment sec) sec.bytes m

abbrev pub AllStand : String → ℕ → List ObjectArtifact → Merge → Type 0
AllStand name index [] m = Unit
AllStand name index (art ∷ arts) m =
    StandsFor name index (find_section art name) m × AllStand name (suc index) arts m

record Found (name : String) (index : ℕ) (o : Option ObjectSection) (m m' : Merge) : Type 0 where
  ready : Ready name (suc index) m'
  stands : StandsFor name index o m'
  grows : Grows m m'
  bounded : m'.offset ≤ m.offset + room_of name o

place_found_step :
    (name : String) (index : ℕ) (o : Option ObjectSection) (m : Merge)
    → is_bss name ≡ false
    → AlignedSection o
    → m.offset + room_of name o < 2 ^ 64
    → Ready name index m
    → Found name index o m (place_found name index o m)
unfolding place_found
place_found_step name index none m plain two fits r = record {
  ready = Ready-suc r;
  stands = tt;
  grows = Grows-refl m;
  bounded = omega arith;
}
place_found_step name index (some sec) m plain two fits r = elim (Bool-cases (has_nothing sec)) [
  | inl nothing ↦ rw nothing (record {
    ready = Ready-suc r;
    stands = λ h. absurd (let f : true ≡ false = sym nothing ∙ h in cc);
    grows = Grows-refl m;
    bounded = omega arith;
  })
  | inr something ↦
      let size : placed_size name sec ≡ length sec.bytes = rw plain in
      let s = place_section-Step name index sec m plain two (omega (arith, size)) r in
      rw something (record {
        ready = s.ready;
        stands = λ h. s.stands;
        grows = s.grows;
        bounded = omega (arith, size, s.bounded);
      })
]

StandsFor-Grows :
    (name : String) (index : ℕ) (o : Option ObjectSection) (m m' : Merge)
    → Grows m m'
    → StandsFor name index o m
    → StandsFor name index o m'
StandsFor-Grows name index none m m' g s = tt
StandsFor-Grows name index (some sec) m m' g s =
    λ h. Grows-Stands name index (section_alignment sec) sec.bytes m m' g (s h)

-- Every input section of the name stands in the merge of all artifacts.
pub place_artifacts_stand :
    (name : String) (index : ℕ) (arts : List ObjectArtifact) (m : Merge)
    → is_bss name ≡ false
    → AlignedInput name arts
    → m.offset + room name arts < 2 ^ 64
    → Ready name index m
    → AllStand name index arts (place_artifacts name index arts m)
      × Grows m (place_artifacts name index arts m)
      × (length (place_artifacts name index arts m).bytes
          ≡ (place_artifacts name index arts m).offset)
unfolding place_artifacts
place_artifacts_stand name index [] m plain two fits r = (tt, Grows-refl m, r.filled)
place_artifacts_stand name index (art ∷ arts) m plain (two, twos) fits r =
    let o = find_section art name in
    let f = place_found_step name index o m plain two (omega arith) r in
    let m1 = place_found name index o m in
    let (rest, grows, filled) =
      place_artifacts_stand name (suc index) arts m1 plain twos (omega (arith, f.bounded))
        f.ready in
    (
      (
        StandsFor-Grows name index o m1 (place_artifacts name (suc index) arts m1) grows f.stands,
        rest,
      ),
      Grows-trans f.grows grows,
      filled,
    )
