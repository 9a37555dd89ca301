-- ===== src/Linker/Lazy/Fixpoint.antt =====
-- The loop ends, and where it ends no member that is left out would help.
use fyra.Prelude.{
  ℕ, zero, suc, ◌+◌, ◌≤◌, ◌<◌, ◌≡◌, refl, String, Bool, true, false, ◌||◌, some, List, [], ◌∷◌,
  ◌++◌, arith, inl, inr, Bool-cases, All, ◌∙◌, sym, ap, if◌then◌else◌,
}
use mathlib.Core.Path.{ap₂}
use fyra.Object.{ObjectArtifact, ObjectSymbol}
use fyra.Linker.Lazy.{
  ArchiveObjectMember, Extraction, wanted, visit_members, visit_archives, missing, no_names,
  provides, has_name, extract_loop, waiting, waiting_all, extract_lazy_archive_members,
}

-- A pass over members loses none of those that wait, and one at least where it makes progress.
visit_members-waiting :
    (unresolved : List String) (ms : List ArchiveObjectMember) (arts : List ObjectArtifact)
    → waiting (visit_members unresolved ms arts).visited
        + (if (visit_members unresolved ms arts).progress then 1 else 0)
      ≤ waiting ms
unfolding visit_members waiting
visit_members-waiting unresolved [] arts = omega arith
visit_members-waiting unresolved (m ∷ ms) arts = ground (
  arith,
  visit_members-waiting unresolved ms
      (if wanted unresolved m then arts ++ (m.artifact ∷ []) else arts),
)

visit_archives-waiting :
    (unresolved : List String) (archives : List (List ArchiveObjectMember))
    (arts : List ObjectArtifact)
    → waiting_all (visit_archives unresolved archives arts).visited
        + (if (visit_archives unresolved archives arts).progress then 1 else 0)
      ≤ waiting_all archives
unfolding visit_archives waiting_all
visit_archives-waiting unresolved [] arts = omega arith
visit_archives-waiting unresolved (ms ∷ archives) arts = ground (
  arith,
  visit_members-waiting unresolved ms arts,
  visit_archives-waiting unresolved archives (visit_members unresolved ms arts).artifacts,
)

-- No member of the archives would be taken for the missing names.
abbrev pub Settled : List String → List (List ArchiveObjectMember) → Type 0
Settled unresolved = All (All (λ m. wanted unresolved m ≡ false))

visit_members_idle :
    (unresolved : List String) (ms : List ArchiveObjectMember) (arts : List ObjectArtifact)
    → (visit_members unresolved ms arts).progress ≡ false
    → ((visit_members unresolved ms arts).artifacts ≡ arts)
      × ((visit_members unresolved ms arts).visited ≡ ms)
      × All (λ m. wanted unresolved m ≡ false) ms
unfolding visit_members
visit_members_idle unresolved [] arts h = (refl, refl, tt)
visit_members_idle unresolved (m ∷ ms) arts h = elim (Bool-cases (wanted unresolved m)) [
  | inl takes ↦ absurd (let f : true ≡ false = rw takes at h in cc)
  | inr leaves ↦
      let (same, visited, rest) = visit_members_idle unresolved ms arts (rw leaves at h) in
      (rw leaves same, rw leaves (ap (λ t. m ∷ t) visited), (leaves, rest))
]

or-eq-false : (a b : Bool) → (a || b) ≡ false → (a ≡ false) × (b ≡ false)
or-eq-false a b h = ground arith

visit_archives_idle :
    (unresolved : List String) (archives : List (List ArchiveObjectMember))
    (arts : List ObjectArtifact)
    → (visit_archives unresolved archives arts).progress ≡ false
    → ((visit_archives unresolved archives arts).artifacts ≡ arts)
      × ((visit_archives unresolved archives arts).visited ≡ archives)
      × Settled unresolved archives
unfolding visit_archives
visit_archives_idle unresolved [] arts h = (refl, refl, tt)
visit_archives_idle unresolved (ms ∷ archives) arts h =
    let first = visit_members unresolved ms arts in
    let (p, q) =
      or-eq-false first.progress (visit_archives unresolved archives first.artifacts).progress h in
    let (same, visited, none_wanted) = visit_members_idle unresolved ms arts p in
    let (same', visited', none_wanted') =
      visit_archives_idle unresolved archives first.artifacts q in
    (same' ∙ same, ap₂ (λ a b. a ∷ b) visited visited', (none_wanted, none_wanted'))

provides_nothing :
    (unresolved : List String) (syms : List ObjectSymbol)
    → no_names unresolved ≡ true
    → provides unresolved syms ≡ false
unfolding provides has_name
provides_nothing [] [] h = refl
provides_nothing [] (sym ∷ syms) h = ground (arith, provides_nothing [] syms h)
provides_nothing (s ∷ ss) syms h = absurd (cc)

unwanted :
    (unresolved : List String) (ms : List ArchiveObjectMember)
    → no_names unresolved ≡ true
    → All (λ m. wanted unresolved m ≡ false) ms
unwanted unresolved [] h = tt
unwanted unresolved (m ∷ ms) h =
    (ground (arith, provides_nothing unresolved m.artifact.symbols h), unwanted unresolved ms h)

Settled-without_names :
    (unresolved : List String) (archives : List (List ArchiveObjectMember))
    → no_names unresolved ≡ true
    → Settled unresolved archives
Settled-without_names unresolved [] h = tt
Settled-without_names unresolved (ms ∷ archives) h =
    (unwanted unresolved ms h, Settled-without_names unresolved archives h)

-- What the loop returns: it ends with the fuel, and nothing that is left out would be taken.
abbrev Ends : ℕ → List ObjectArtifact → List (List ArchiveObjectMember) → Bool → Type 0
Ends fuel arts archives any =
    (e : Extraction) × (extract_loop fuel arts archives any ≡ some e)
    × Settled (missing e.artifacts) e.archives

extract_loop-Ends :
    (fuel : ℕ) (arts : List ObjectArtifact) (archives : List (List ArchiveObjectMember))
    (any : Bool)
    → waiting_all archives < fuel
    → Ends fuel arts archives any
unfolding extract_loop
extract_loop-Ends zero arts archives any h = absurd (omega arith)
extract_loop-Ends (suc fuel) arts archives any h = elim (Bool-cases (no_names (missing arts))) [
  | inl done ↦ (
    record { artifacts = arts; archives = archives; extracted_any = any },
    rw (done, extract_loop),
    Settled-without_names (missing arts) archives done,
  )
  | inr more ↦ elim (Bool-cases (visit_archives (missing arts) archives arts).progress) [
    | inl moved ↦
        let pass = visit_archives (missing arts) archives arts in
        let (e, run, settled) =
          extract_loop-Ends fuel pass.artifacts pass.visited true
            (ground (arith, visit_archives-waiting (missing arts) archives arts)) in
        (e, rw (more, moved) run, settled)
    | inr idle ↦
        let pass = visit_archives (missing arts) archives arts in
        let (same, visited, settled) = visit_archives_idle (missing arts) archives arts idle in
        (
          record { artifacts = pass.artifacts; archives = pass.visited; extracted_any = any },
          rw (more, idle),
          rw (same, visited) settled,
        )
  ]
]

-- The loop ends on every input, and then no archive member that is left out defines a global symbol
-- that the artifacts still lack.
pub extract_settles :
    (arts : List ObjectArtifact) (archives : List (List ArchiveObjectMember))
    → (e : Extraction) × (extract_lazy_archive_members arts archives ≡ some e)
      × Settled (missing e.artifacts) e.archives
unfolding extract_lazy_archive_members
extract_settles arts archives =
    extract_loop-Ends (suc (waiting_all archives)) arts archives false (omega arith)
