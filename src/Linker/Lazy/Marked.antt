-- ===== src/Linker/Lazy/Marked.antt =====
-- The artifacts that are added are those of the members that are marked.
use fyra.Prelude.{
  ℕ, String, inl, inr, Bool-cases, zero, suc, ◌+◌, ◌≡◌, refl, Bool, true, false, some, List, [],
  ◌∷◌, ◌++◌, arith, if◌then◌else◌,
}
use fyra.Object.{ObjectArtifact}
use fyra.Linker.Lazy.{
  ArchiveObjectMember, Extraction, wanted, visit_members, visit_archives, missing, extract_loop,
  waiting_all, extract_lazy_archive_members,
}

-- The artifacts that pass a test, and the members that are not extracted and whose artifact passes it.
abbrev pub passing : (ObjectArtifact → Bool) → List ObjectArtifact → ℕ
passing test [] = 0
passing test (art ∷ arts) = (if test art then 1 else 0) + passing test arts

abbrev pub passing_member : (ObjectArtifact → Bool) → ArchiveObjectMember → ℕ
passing_member test m = if m.extracted then 0 else if test m.artifact then 1 else 0

abbrev pub passing_members : (ObjectArtifact → Bool) → List ArchiveObjectMember → ℕ
passing_members test [] = 0
passing_members test (m ∷ ms) = passing_member test m + passing_members test ms

abbrev pub passing_left : (ObjectArtifact → Bool) → List (List ArchiveObjectMember) → ℕ
passing_left test [] = 0
passing_left test (ms ∷ archives) = passing_members test ms + passing_left test archives

passing-append :
    (test : ObjectArtifact → Bool) (arts more : List ObjectArtifact)
    → passing test (arts ++ more) ≡ passing test arts + passing test more
passing-append test [] more = omega arith
passing-append test (art ∷ arts) more = omega (arith, passing-append test arts more)

visit_members-passing :
    (test : ObjectArtifact → Bool) (unresolved : List String) (ms : List ArchiveObjectMember)
    (arts : List ObjectArtifact)
    → passing test (visit_members unresolved ms arts).artifacts
        + passing_members test (visit_members unresolved ms arts).visited
      ≡ passing test arts + passing_members test ms
unfolding visit_members
visit_members-passing test unresolved [] arts = refl
visit_members-passing test unresolved (m ∷ ms) arts = elim (Bool-cases (wanted unresolved m)) [
  | inr leaves ↦ rw leaves (omega (arith, visit_members-passing test unresolved ms arts))
  | inl takes ↦
      let fresh : m.extracted ≡ false = ground arith in
      rw (takes, fresh)
        (omega (
          arith,
          passing-append test arts (m.artifact ∷ []),
          visit_members-passing test unresolved ms (arts ++ (m.artifact ∷ [])),
        ))
]

visit_archives-passing :
    (test : ObjectArtifact → Bool) (unresolved : List String)
    (archives : List (List ArchiveObjectMember)) (arts : List ObjectArtifact)
    → passing test (visit_archives unresolved archives arts).artifacts
        + passing_left test (visit_archives unresolved archives arts).visited
      ≡ passing test arts + passing_left test archives
unfolding visit_archives
visit_archives-passing test unresolved [] arts = refl
visit_archives-passing test unresolved (ms ∷ archives) arts = omega (
  arith,
  visit_members-passing test unresolved ms arts,
  visit_archives-passing test unresolved archives (visit_members unresolved ms arts).artifacts,
)

extract_loop-passing :
    (test : ObjectArtifact → Bool) (fuel : ℕ) (arts : List ObjectArtifact)
    (archives : List (List ArchiveObjectMember)) (any : Bool) {e : Extraction}
    → extract_loop fuel arts archives any ≡ some e
    → passing test e.artifacts + passing_left test e.archives
      ≡ passing test arts + passing_left test archives
unfolding extract_loop
extract_loop-passing test zero arts archives any h = absurd (cc)
extract_loop-passing test (suc fuel) arts archives any {e} h =
    let pass = visit_archives (missing arts) archives arts in
    ground (
      arith,
      visit_archives-passing test (missing arts) archives arts,
      extract_loop-passing test fuel pass.artifacts pass.visited true {e = e},
    )

-- Whatever an artifact is tested for: as many artifacts that pass are linked at the end as were at the
-- start and as belong to members that the loop has marked extracted. So the artifacts that are added
-- are those of the members that are marked, each once.
pub extract-passing :
    (test : ObjectArtifact → Bool) (arts : List ObjectArtifact)
    (archives : List (List ArchiveObjectMember)) {e : Extraction}
    → extract_lazy_archive_members arts archives ≡ some e
    → passing test e.artifacts + passing_left test e.archives
      ≡ passing test arts + passing_left test archives
unfolding extract_lazy_archive_members
extract-passing test arts archives h =
    extract_loop-passing test (suc (waiting_all archives)) arts archives false h
