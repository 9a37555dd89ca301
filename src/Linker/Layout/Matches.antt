-- ===== src/Linker/Layout/Matches.antt =====
-- The placement that `link` finds for an artifact's section: the first that fits. Placements are only
-- ever added behind.
use fyra.Prelude.{
  ℕ, String, ◌≡◌, refl, Bool, false, ◌&&◌, ◌||◌, List, [], ◌∷◌, ◌++◌, ◌==◌, arith, if◌then◌else◌,
}
use fyra.Prelude.Texts.{◌==◌ as str_eq}
use fyra.Linker.Layout.Place.{SectionPlacement, offset_in_output}

unfoldable pub has_placement : List SectionPlacement → ℕ → String → Bool
has_placement [] index name = false
has_placement (p ∷ ps) index name =
    (p.artifact_index == index && str_eq p.section_name name) || has_placement ps index name

pub has_placement-append :
    (ps qs : List SectionPlacement) (index : ℕ) (name : String)
    → has_placement (ps ++ qs) index name
      ≡ (has_placement ps index name || has_placement qs index name)
unfolding has_placement
has_placement-append [] qs index name = refl
has_placement-append (p ∷ ps) qs index name = ground (arith, has_placement-append ps qs index name)

pub offset_in_output-append :
    (ps qs : List SectionPlacement) (index : ℕ) (name : String)
    → offset_in_output (ps ++ qs) index name ≡ (
        if has_placement ps index name
        then offset_in_output ps index name
        else offset_in_output qs index name)
unfolding has_placement offset_in_output
offset_in_output-append [] qs index name = refl
offset_in_output-append (p ∷ ps) qs index name =
    ground (arith, offset_in_output-append ps qs index name)
