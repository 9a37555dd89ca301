-- ===== src/Tests/Archives.antt =====
-- An archive whose member defines the symbol that the program lacks.
use fyra.Prelude.{◌+◌, ◌≡◌, refl, List, [], ◌∷◌, some, length, true, Bool, ◌==◌}
use fyra.Linker.Lazy.{ArchiveObjectMember, Extraction, missing, extract_lazy_archive_members}
use fyra.Linker.Lazy.Fixpoint.{Settled, extract_settles}
use fyra.Linker.Lazy.Marked.{passing, passing_left, extract-passing}
use fyra.Object.{ObjectArtifact}
use fyra.Tests.Data.{main_artifact, helper_artifact, program, member_of}

abbrev archive : List (List ArchiveObjectMember)
archive = (member_of "helper.o" helper_artifact ∷ member_of "main.o" main_artifact ∷ []) ∷ []

abbrev extraction : Extraction
extraction = record {
  artifacts = program;
  archives =
      (record (member_of "helper.o" helper_artifact) { extracted = true }
        ∷ member_of "main.o" main_artifact
        ∷ [])
      ∷ [];
  extracted_any = true;
}

extracts : extract_lazy_archive_members (main_artifact ∷ []) archive ≡ some extraction
unfolding extract_lazy_archive_members
extracts = refl

extract_settles_example :
    (e : Extraction) × (extract_lazy_archive_members (main_artifact ∷ []) archive ≡ some e)
    × Settled (missing e.artifacts) e.archives
extract_settles_example = extract_settles (main_artifact ∷ []) archive

-- the artifacts with two symbols
abbrev two_symbols : ObjectArtifact → Bool
two_symbols art = length art.symbols == 2

extract-passing_example :
    passing two_symbols extraction.artifacts + passing_left two_symbols extraction.archives
    ≡ passing two_symbols (main_artifact ∷ []) + passing_left two_symbols archive
extract-passing_example =
    extract-passing two_symbols (main_artifact ∷ []) archive {e = extraction} extracts
