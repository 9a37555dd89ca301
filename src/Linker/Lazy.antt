-- ===== src/Linker/Lazy.antt =====
-- InternalLinker::extractLazyArchiveMembers: members of archives are linked in only where they define
-- a symbol that is still missing, until a whole pass adds none.
pub mod Fixpoint
pub mod Marked
use fyra.Prelude.{
  ℕ, zero, suc, ◌+◌, String, Bool, true, false, ◌&&◌, ◌||◌, not, Option, none, some, List, [], ◌∷◌,
  ◌++◌, if◌then◌else◌,
}
use fyra.Prelude.Texts.{◌==◌ as str_eq}
use fyra.Object.{ObjectArtifact, ObjectSymbol, ObjectRelocation, is_global}

pub record ArchiveObjectMember : Type 0 where
  pub name : String
  pub bytes : List ℕ
  pub artifact : ObjectArtifact
  pub extracted : Bool

-- The sets of names are lists; only membership and emptiness are asked.
unfoldable pub has_name : List String → String → Bool
has_name [] s = false
has_name (t ∷ ts) s = str_eq t s || has_name ts s

abbrev pub defines_global : ObjectSymbol → Bool
defines_global sym = sym.is_defined && is_global sym.binding

unfoldable pub defined_in : List ObjectSymbol → List String
defined_in [] = []
defined_in (sym ∷ syms) =
    let rest = defined_in syms in if defines_global sym then sym.name ∷ rest else rest

unfoldable pub defined_globals : List ObjectArtifact → List String
unfolding defined_in
defined_globals [] = []
defined_globals (art ∷ arts) = defined_in art.symbols ++ defined_globals arts

unfoldable pub missing_relocated : List String → List ObjectRelocation → List String
unfolding has_name
missing_relocated defined [] = []
missing_relocated defined (reloc ∷ relocs) =
    let rest = missing_relocated defined relocs in
    if has_name defined reloc.symbol_name then rest else reloc.symbol_name ∷ rest

unfoldable pub missing_declared : List String → List ObjectSymbol → List String
unfolding has_name
missing_declared defined [] = []
missing_declared defined (sym ∷ syms) =
    let rest = missing_declared defined syms in
    if not sym.is_defined && not (has_name defined sym.name) then sym.name ∷ rest else rest

unfoldable pub unresolved_globals : List String → List ObjectArtifact → List String
unfolding missing_relocated missing_declared
unresolved_globals defined [] = []
unresolved_globals defined (art ∷ arts) =
    missing_relocated defined art.relocations
    ++ (missing_declared defined art.symbols ++ unresolved_globals defined arts)

unfoldable pub provides : List String → List ObjectSymbol → Bool
unfolding has_name
provides unresolved [] = false
provides unresolved (sym ∷ syms) =
    (defines_global sym && has_name unresolved sym.name) || provides unresolved syms

-- One pass: the artifacts so far, the archives, and whether a member was added.
pub record Pass (A : Type 0) : Type 0 where
  pub artifacts : List ObjectArtifact
  pub visited : A
  pub progress : Bool

-- The member is taken by this pass.
abbrev pub wanted : List String → ArchiveObjectMember → Bool
wanted unresolved m = not m.extracted && provides unresolved m.artifact.symbols

unfoldable pub visit_members :
    List String → List ArchiveObjectMember → List ObjectArtifact → Pass (List ArchiveObjectMember)
unfolding provides
visit_members unresolved [] arts = record { artifacts = arts; visited = []; progress = false }
visit_members unresolved (m ∷ ms) arts =
    let take_it = wanted unresolved m in
    let rest = visit_members unresolved ms (if take_it then arts ++ (m.artifact ∷ []) else arts) in
    record {
      artifacts = rest.artifacts;
      visited = (if take_it then record m { extracted = true } else m) ∷ rest.visited;
      progress = take_it || rest.progress;
    }

unfoldable pub visit_archives :
    List String
    → List (List ArchiveObjectMember)
    → List ObjectArtifact
    → Pass (List (List ArchiveObjectMember))
unfolding visit_members
visit_archives unresolved [] arts = record { artifacts = arts; visited = []; progress = false }
visit_archives unresolved (ms ∷ archives) arts =
    let first = visit_members unresolved ms arts in
    let rest = visit_archives unresolved archives first.artifacts in
    record {
      artifacts = rest.artifacts;
      visited = first.visited ∷ rest.visited;
      progress = first.progress || rest.progress;
    }

abbrev pub missing : List ObjectArtifact → List String
missing arts = unresolved_globals (defined_globals arts) arts

abbrev pub no_names : List String → Bool
no_names [] = true
no_names (s ∷ ss) = false

pub record Extraction : Type 0 where
  pub artifacts : List ObjectArtifact
  pub archives : List (List ArchiveObjectMember)
  pub extracted_any : Bool

-- The `while (progress)` loop; `none` means that the fuel ran out.
unfoldable pub extract_loop :
    ℕ → List ObjectArtifact → List (List ArchiveObjectMember) → Bool → Option Extraction
unfolding visit_archives unresolved_globals defined_globals
extract_loop zero arts archives any = none
extract_loop (suc fuel) arts archives any =
    let unresolved = missing arts in
    let pass = visit_archives unresolved archives arts in
    let stop = some (record { artifacts = arts; archives = archives; extracted_any = any }) in
    let rest = extract_loop fuel pass.artifacts pass.visited true in
    let stuck =
      some (record { artifacts = pass.artifacts; archives = pass.visited; extracted_any = any }) in
    if no_names unresolved then stop else if pass.progress then rest else stuck

-- Members that are not extracted yet: each pass that goes on takes one of them.
unfoldable pub waiting : List ArchiveObjectMember → ℕ
waiting [] = 0
waiting (m ∷ ms) = (if m.extracted then 0 else 1) + waiting ms

unfoldable pub waiting_all : List (List ArchiveObjectMember) → ℕ
unfolding waiting
waiting_all [] = 0
waiting_all (ms ∷ archives) = waiting ms + waiting_all archives

unfoldable pub extract_lazy_archive_members :
    List ObjectArtifact → List (List ArchiveObjectMember) → Option Extraction
unfolding extract_loop waiting_all
extract_lazy_archive_members arts archives =
    extract_loop (suc (waiting_all archives)) arts archives false
