-- ===== src/Frozen/Layout.antt =====
-- The exact-layout check and the digests of src/forge/capabilityizer.py: artifact_layout to
-- seal_digest.
use Prim.Native.String.{◌++◌ as text_append}
use agent_capability_forge.Prelude.{
  String, Bool, true, false, not, ◌||◌, Option, none, some, List, [], ◌∷◌, ◌++◌, map, ◌==◌, ◌!=◌,
  if◌then◌else◌, string_eq, any, select, lookup, insert, report, Map,
}
use agent_capability_forge.Code.{
  Code, artifact_allowlist_missing, artifact_allowlist_duplicate, artifact_allowlist_path_invalid,
  artifact_allowlist_file_missing, undeclared_artifact_file,
}
use agent_capability_forge.Frozen.Defs.{Tree, Manifest, Core, Sealer}

-- `x in xs`
abbrev pub contains : String → List String → Bool
contains x xs = any (λ y. x == y) xs

-- `len(set(xs)) != len(xs)`
unfoldable pub repeats : List String → Bool
repeats [] = false
repeats (x ∷ xs) = contains x xs || repeats xs

-- `(directory / rel).is_file()`
abbrev pub present {ℓ} : {A : Type ℓ} → Option A → Bool
present none = false
present (some a) = true

abbrev pub is_file : String → Tree → Bool
is_file p t = present (lookup p t)

abbrev pub paths : Tree → List String
paths t = map (λ f. f.0) t

-- `not rel or p.is_absolute() or ".." in p.parts`
unfoldable pub invalid_path : Sealer → String → Bool
invalid_path s rel = rel == "" || s.is_absolute rel || s.has_parent_part rel

-- The loop over the allowlist: the code of each entry.
unfoldable pub entry_violations : Sealer → Tree → List String → List Code
entry_violations s t [] = []
entry_violations s t (rel ∷ rels) =
    (if invalid_path s rel
      then artifact_allowlist_path_invalid ∷ []
      else if is_file rel t
      then []
      else artifact_allowlist_file_missing ∷ [])
    ++ entry_violations s t rels

-- `wanted`, the entries that are valid paths.
unfoldable pub wanted : Sealer → List String → List String
wanted s rels = select (λ rel. not (invalid_path s rel)) rels

-- `actual - wanted`
unfoldable pub undeclared : List String → List String → List Code
undeclared want [] = []
undeclared want (p ∷ ps) =
    (if contains p want then [] else undeclared_artifact_file ∷ []) ++ undeclared want ps

-- file_digest
unfoldable pub sha256_bytes : Sealer → String → String
sha256_bytes s bytes = text_append "sha256:" (s.hexdigest bytes)

unfoldable pub file_digests : Sealer → Tree → List String → Map String
file_digests s t [] = []
file_digests s t (rel ∷ rels) = elim (lookup rel t) [
  | none ↦ file_digests s t rels
  | some bytes ↦ insert rel (sha256_bytes s bytes) (file_digests s t rels)
]

-- artifact_layout: the digests of the wanted files that are there, and the violations.
unfoldable pub artifact_layout : Sealer → Tree → Option (List String) → Map String × List Code
artifact_layout s t none = ([], artifact_allowlist_missing ∷ [])
artifact_layout s t (some []) = ([], artifact_allowlist_missing ∷ [])
artifact_layout s t (some (rel ∷ rels)) =
    let allowlist = rel ∷ rels in
    (
      file_digests s t (wanted s allowlist),
      report ((repeats allowlist, artifact_allowlist_duplicate) ∷ [])
          ++ (entry_violations s t allowlist ++ undeclared (wanted s allowlist) (paths t)),
    )

unfoldable pub canonical_artifact_digest : Sealer → Map String → String
canonical_artifact_digest s files = sha256_bytes s (s.dumps_files files)

pub record LayoutReport : Type 0 where
  pub digest : String
  pub violations : List Code

unfoldable pub frozen_artifact_report : Sealer → Tree → Option (List String) → LayoutReport
frozen_artifact_report s t allowlist =
    let (files, cs) = artifact_layout s t allowlist in
    record { digest = canonical_artifact_digest s files; violations = cs }

unfoldable pub manifest_digest : Sealer → Manifest → String
manifest_digest s m = sha256_bytes s (s.dumps_manifest m)

-- Every file of the tests directory.
unfoldable pub tests_digest : Sealer → Tree → String
tests_digest s t = sha256_bytes s (s.dumps_files (file_digests s t (paths t)))

-- The payload that the seal hashes; v1 leaves its schema and version out.
unfoldable pub seal_digest : Sealer → Core → String → String → String → String
seal_digest s core artifact tests seal_version = sha256_bytes s (
    s.dumps_payload (record {
      core = core;
      artifact_digest = artifact;
      manifest_digest = manifest_digest s core.manifest;
      tests_digest = tests;
      seal = if seal_version != "v1" then some ("frozen-candidate-v2", seal_version) else none;
    }))
