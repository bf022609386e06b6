-- ===== src/Evidence/Manifest.antt =====
-- `validate_manifest`, `validate_repository` and `main`: all sections of every manifest.
use oxide_batch_workloads.Base.{ℕ, String, Option, List, [], ◌∷◌, if◌then◌else◌}
use oxide_batch_workloads.Base.Dict.{Dict}
use oxide_batch_workloads.Base.Json.{Json, get, equals_num}
use oxide_batch_workloads.Base.Result.{Result, ok, err, ◌>>=◌, ◌>>◌, require}
use oxide_batch_workloads.Registry.{Root, RegistryFile, no_file, no_json, value}
use oxide_batch_workloads.Registry.Entry.{Entry}
use oxide_batch_workloads.Registry.Repository.{Registry}
use oxide_batch_workloads.Registry.Repository
use oxide_batch_workloads.Evidence.{plain, require_keys}
use oxide_batch_workloads.Evidence.Closure.{ClosureEntry}
use oxide_batch_workloads.Evidence.Validated.{validate_semantic_closure}
use oxide_batch_workloads.Evidence.Sections.{
  SectionError, is_text, validate_producer, validate_environment, validate_external_artifacts,
}
use oxide_batch_workloads.Evidence.Records.{
  ManifestError, in_section, missing_manifest, invalid_manifest, wrong_schema, wrong_workload,
  bad_registry, not_directory, field, RetainedFile, Kept, kept_paths, validate_records,
}
use oxide_batch_workloads.Evidence.Retention.{VerifierRun, validate_retention, validate_verifier}
use oxide_batch_workloads.Evidence.Subject.{History, validate_subject}

abbrev pub in_a_section {ℓ} : {A : Type ℓ} → Result SectionError A → Result ManifestError A
in_a_section (ok a) = ok a
in_a_section (err e) = err (in_section e)

-- The directory of a workload that keeps evidence: its manifest, its files by their path, the
-- JSON files under validation/ without the manifest, and the runs of its verifiers.
pub record Directory : Type 0 where
  pub manifest : RegistryFile
  pub files : String → Option RetainedFile
  pub json_files : List String
  pub run : String → VerifierRun

abbrev pub schema_version : ℕ
schema_version = 2

abbrev pub sections : List String
sections =
    "schema_version" ∷ "workload" ∷ "producer" ∷ "semantic_closure" ∷ "validation_subject"
    ∷ "records" ∷ "verifier" ∷ "environment" ∷ "retention" ∷ "external_artifacts" ∷ []

-- The sections after the two that are read first, on the entries of the closure.
unfoldable pub validate_rest :
    History
    → String
    → Directory
    → Dict Json
    → List Kept
    → List ClosureEntry
    → String
    → Result ManifestError (Unit {0})
unfolding validate_subject validate_environment validate_retention validate_external_artifacts
    validate_verifier get
validate_rest history path directory d kept entries revision = do
  validate_subject history path entries revision (get d "validation_subject")
  in_a_section (validate_environment (get d "environment"))
  validate_retention directory.json_files (get d "retention") kept
  in_a_section (validate_external_artifacts (get d "external_artifacts"))
  validate_verifier directory.files directory.run entries (get d "verifier")

unfoldable pub validate_document :
    History → String → String → Directory → Json → Result ManifestError (Unit {0})
unfolding require_keys validate_producer validate_records validate_semantic_closure validate_rest
    get
validate_document history name path directory j = do
  d ← field (require_keys j sections (plain "evidence manifest"))
  require (equals_num (get d "schema_version") schema_version) wrong_schema
  require (is_text (get d "workload") name) wrong_workload
  producer ← in_a_section (validate_producer history.commit_available (get d "producer"))
  kept ← validate_records directory.files (get d "records")
  closed ← field (
      validate_semantic_closure history.git path producer.0 producer.1 (get d "semantic_closure")
        (kept_paths kept))
  validate_rest history path directory d kept closed.0 (if producer.1 then producer.0 else closed.1)

unfoldable pub validate_manifest :
    History → String → String → Directory → Result ManifestError (Unit {0})
unfolding validate_document
validate_manifest history name path directory = elim directory.manifest [
  | no_file ↦ err missing_manifest
  | no_json ↦ err invalid_manifest
  | value j ↦ validate_document history name path directory j
]

-- What is at validation/ below a workload.
pub data Retained : Type 0 where
  nothing other_file : Retained
  directory : Directory → Retained

-- The names of the workloads that keep evidence, all of it valid.
unfoldable pub workload_loop :
    History → (String → Retained) → List Entry → Result ManifestError (List String)
unfolding validate_manifest
workload_loop history retained [] = ok []
workload_loop history retained (e ∷ es) = elim (retained e.path) [
  | nothing ↦ workload_loop history retained es
  | other_file ↦ err not_directory
  | directory d ↦
      validate_manifest history e.name e.path d
      >> (workload_loop history retained es >>= λ names. ok (e.name ∷ names))
]

unfoldable pub validate_repository :
    History → Root → RegistryFile → (String → Retained) → Result ManifestError (List String)
unfolding workload_loop Repository.validate_repository
validate_repository history root file retained = elim (Repository.validate_repository root file) [
  | err e ↦ err bad_registry
  | ok registry ↦ workload_loop history retained registry.workloads
]

-- The exit status of `main`.
unfoldable pub main : History → Root → RegistryFile → (String → Retained) → ℕ
unfolding validate_repository
main history root file retained = elim (validate_repository history root file retained) [
  | err e ↦ 1
  | ok names ↦ 0
]
