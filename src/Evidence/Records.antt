-- ===== src/Evidence/Records.antt =====
-- `validate_records`: the retained artifacts of a workload and where they come from.
use oxide_batch_workloads.Base.{
  ℕ, suc, ◌+◌, String, Bool, true, false, not, ◌&&◌, ◌||◌, ◌==◌, Option, none, some, List, [], ◌∷◌,
  contains, starts_with, nat_eq, is_empty, is_some,
}
use oxide_batch_workloads.Base.Dict.{Dict, has_key}
use oxide_batch_workloads.Base.Json.{Json, get, as_dict, as_list, as_nat}
use oxide_batch_workloads.Base.Result.{Result, ok, err, ◌>>=◌, ◌>>◌, reject_if, require}
use oxide_batch_workloads.Registry.{path_parts}
use oxide_batch_workloads.Provenance.{ProvenanceError}
use oxide_batch_workloads.Provenance.Repository.{last_part}
use oxide_batch_workloads.Evidence.{
  Field, item, EvidenceError, require_keys, require_string, require_hex, safe_path,
}
use oxide_batch_workloads.Evidence.Sections.{SectionError}

-- A message of `EvidenceError`, in a section that Evidence.Sections checks or elsewhere.
pub data ManifestError : Type 0 where
  in_field : EvidenceError → ManifestError
  in_section : SectionError → ManifestError
  no_records wrong_directory wrong_count wrong_total too_many too_large freshness_gate
        wrong_layout :
      ManifestError
  duplicate_scenario duplicate_artifact missing_artifact digest_mismatch size_mismatch :
      String → ManifestError
  not_generated wrong_size no_identity nothing_identified no_reproduction no_parameters
        wrong_failure_point :
      Field → ManifestError
  not_in_closure : String → ManifestError
  no_blob : String → ManifestError
  bad_provenance : ProvenanceError → ManifestError
  no_lock_packages wrong_lock_path wrong_lock_identity no_crates crates_differ : ManifestError
  wrong_package : String → ManifestError
  wrong_model no_verifier wrong_verifier wrong_producer_verifier malformed_result
        wrong_result_schema wrong_violations nonzero_verifier :
      ManifestError
  violations_reported : List String → ManifestError
  missing_manifest invalid_manifest wrong_schema wrong_workload bad_registry not_directory :
      ManifestError

abbrev pub field {ℓ} : {A : Type ℓ} → Result EvidenceError A → Result ManifestError A
field (ok a) = ok a
field (err e) = err (in_field e)

-- A file, of which only its size and its SHA-256 count.
pub record RetainedFile : Type 0 where
  pub size : ℕ
  pub sha256 : String

-- A retained artifact.
pub record Kept : Type 0 where
  pub scenario : String
  pub path : String
  pub size : ℕ

abbrev records : String
records = "records"

-- The file against the record. The size is looked at before the file.
unfoldable pub compare_file :
    Field → String → String → Option ℕ → Option RetainedFile → Result ManifestError (String × ℕ)
compare_file f path expected none file = err (wrong_size f)
compare_file f path expected (some size) none = err (missing_artifact path)
compare_file f path expected (some size) (some file) = do
  require (file.sha256 == expected) (digest_mismatch path)
  require (nat_eq file.size size) (size_mismatch path)
  ok (path, file.size)

-- The artifact of a record: its path and the size of the file.
unfoldable pub validate_retained :
    (String → Option RetainedFile) → List String → ℕ → Json → Result ManifestError (String × ℕ)
unfolding require_keys safe_path require_hex path_parts get compare_file
validate_retained files paths index value = do
  artifact ←
      field (
        require_keys value ("path" ∷ "sha256" ∷ "size_bytes" ∷ []) (item records index ".artifact"))
  path ← field (safe_path (get artifact "path") (item records index ".artifact.path"))
  require
      (starts_with path "validation/"
        && not (last_part (path_parts path) == "evidence-manifest.json"))
      (not_generated (item records index ".artifact.path"))
  reject_if (contains paths path) (duplicate_artifact path)
  expected ← field (require_hex (get artifact "sha256") 64 (item records index ".artifact.sha256"))
  compare_file (item records index ".artifact.size_bytes") path expected
      (as_nat (get artifact "size_bytes")) (files path)

-- `isinstance(size, int) and not isinstance(size, bool) and size >= 0`
abbrev is_size : Json → Bool
is_size j = is_some (as_nat j)

-- A check of a field that may be left out.
abbrev where_present : Bool → Result EvidenceError String → Result ManifestError (Unit {0})
where_present false checked = ok tt
where_present true checked = field checked >>= λ s. ok tt

unfoldable pub validate_identity : ℕ → Dict Json → Result ManifestError (Unit {0})
unfolding require_string require_hex get
validate_identity index identity = do
  kind ← field (require_string (get identity "kind") (item records index ".input.identity.kind"))
  require (has_key identity "sha256" || has_key identity "reference")
      (nothing_identified (item records index ".input.identity"))
  where_present (has_key identity "sha256")
      (require_hex (get identity "sha256") 64 (item records index ".input.identity.sha256"))
  where_present (has_key identity "reference")
      (require_string (get identity "reference") (item records index ".input.identity.reference"))
  reject_if (has_key identity "size_bytes" && not (is_size (get identity "size_bytes")))
      (wrong_size (item records index ".input.identity.size_bytes"))

abbrev is_nonempty_dict : Json → Bool
is_nonempty_dict j = elim (as_dict j) [ none ↦ false | some d ↦ not (is_empty d) ]

abbrev pub is_dict : Json → Bool
is_dict j = is_some (as_dict j)

abbrev pub is_failure_point : Json → Bool
is_failure_point Json.null = true
is_failure_point j = is_nonempty_dict j

-- The input, the parameters and the failure point of a record.
unfoldable pub validate_input : ℕ → Json → Result ManifestError (Unit {0})
unfolding require_keys validate_identity get
validate_input index value =
    field (require_keys value ("identity" ∷ "reproduction" ∷ []) (item records index ".input"))
    >>= λ input. elim (as_dict (get input "identity")) [
      | none ↦ err (no_identity (item records index ".input.identity"))
      | some identity ↦
          validate_identity index identity
          >> require (is_nonempty_dict (get input "reproduction"))
              (no_reproduction (item records index ".input.reproduction"))
    ]

unfoldable pub validate_record :
    (String → Option RetainedFile)
    → List String
    → List String
    → ℕ
    → Json
    → Result ManifestError Kept
unfolding require_keys require_string validate_retained validate_input get
validate_record files scenarios paths index value = do
  entry ← field (
      require_keys value ("scenario" ∷ "artifact" ∷ "input" ∷ "parameters" ∷ "failure_point" ∷ [])
        (item records index ""))
  scenario ← field (require_string (get entry "scenario") (item records index ".scenario"))
  reject_if (contains scenarios scenario) (duplicate_scenario scenario)
  retained ← validate_retained files paths index (get entry "artifact")
  validate_input index (get entry "input")
  require (is_dict (get entry "parameters")) (no_parameters (item records index ".parameters"))
  require (is_failure_point (get entry "failure_point"))
      (wrong_failure_point (item records index ".failure_point"))
  ok (record { scenario = scenario; path = retained.0; size = retained.1 })

unfoldable pub record_loop :
    (String → Option RetainedFile)
    → List String
    → List String
    → ℕ
    → List Json
    → Result ManifestError (List Kept)
unfolding validate_record
record_loop files scenarios paths index [] = ok []
record_loop files scenarios paths index (j ∷ js) =
    validate_record files scenarios paths index j >>= λ kept.
    record_loop files (kept.scenario ∷ scenarios) (kept.path ∷ paths) (suc index) js >>= λ rest.
    ok (kept ∷ rest)

unfoldable pub validate_records :
    (String → Option RetainedFile) → Json → Result ManifestError (List Kept)
unfolding record_loop
validate_records files value = elim (as_list value) [
  | none ↦ err no_records
  | some [] ↦ err no_records
  | some (j ∷ js) ↦ record_loop files [] [] 0 (j ∷ js)
]

-- The set of the paths, the number of the artifacts and their bytes.
abbrev pub kept_paths : List Kept → List String
kept_paths [] = []
kept_paths (k ∷ ks) = k.path ∷ kept_paths ks

abbrev pub total_bytes : List Kept → ℕ
total_bytes [] = 0
total_bytes (k ∷ ks) = k.size + total_bytes ks
