-- ===== src/Evidence/Retention.antt =====
-- `validate_retention` and `validate_verifier`: the bounds on what is kept, and its verifier.
use oxide_batch_workloads.Base.{
  ℕ, String, Bool, false, not, ◌==◌, Option, none, some, List, [], ◌∷◌, length, ltb, nat_eq,
  if◌then◌else◌,
}
use oxide_batch_workloads.Base.Json.{Json, get, as_dict, as_list, as_nat, as_str, equals_num}
use oxide_batch_workloads.Base.Result.{Result, ok, err, ◌>>=◌, ◌>>◌, reject_if, require}
use oxide_batch_workloads.Evidence.{plain, require_keys, require_string, require_hex, safe_path}
use oxide_batch_workloads.Evidence.Sections.{is_text, closure_blob_oid}
use oxide_batch_workloads.Evidence.Closure.{ClosureEntry}
use oxide_batch_workloads.Evidence.Validated.{same_set}
use oxide_batch_workloads.Evidence.Records.{
  ManifestError, wrong_directory, wrong_count, wrong_total, too_many, too_large, freshness_gate,
  wrong_layout, not_in_closure, wrong_model, no_verifier, wrong_verifier, wrong_producer_verifier,
  malformed_result, wrong_result_schema, wrong_violations, nonzero_verifier, violations_reported,
  field, RetainedFile, Kept, kept_paths, total_bytes,
}

-- An integer of at least 1.
abbrev pub positive : Option ℕ → Option ℕ
positive none = none
positive (some n) = if ltb n 1 then none else some n

unfoldable pub require_positive : Json → ManifestError → Result ManifestError ℕ
require_positive j e = elim (positive (as_nat j)) [ none ↦ err e | some n ↦ ok n ]

abbrev pub is_false : Json → Bool
is_false (Json.bool b) = not b
is_false j = false

-- The JSON files under validation/, without the manifest, are a parameter.
unfoldable pub validate_retention : List String → Json → List Kept → Result ManifestError (Unit {0})
unfolding require_keys require_string require_positive get
validate_retention json_files value kept = do
  retention ← field (
      require_keys value ("committed_artifacts" ∷ "wall_clock_freshness_merge_gate" ∷ [])
        (plain "retention"))
  committed ← field (
      require_keys (get retention "committed_artifacts")
        ("directory" ∷ "max_count" ∷ "max_total_bytes" ∷ "supersession" ∷ [])
        (plain "retention.committed_artifacts"))
  require (is_text (get committed "directory") "validation") wrong_directory
  max_count ← require_positive (get committed "max_count") wrong_count
  max_total ← require_positive (get committed "max_total_bytes") wrong_total
  supersession ← field (
      require_string (get committed "supersession")
        (plain "retention.committed_artifacts.supersession"))
  reject_if (ltb max_count (length kept)) too_many
  reject_if (ltb max_total (total_bytes kept)) too_large
  require (is_false (get retention "wall_clock_freshness_merge_gate")) freshness_gate
  require (same_set json_files (kept_paths kept)) wrong_layout

-- What the run of a verifier prints, if it is JSON, and its exit status.
pub record VerifierRun : Type 0 where
  pub stdout : Option Json
  pub returncode : ℕ

-- The texts of a list of texts that are not empty.
unfoldable pub violations_of : List Json → Option (List String)
violations_of [] = some []
violations_of (j ∷ js) =
    let rest = violations_of js in
    elim (as_str j) [
      | none ↦ none
      | some s ↦ if s == "" then none else elim rest [ none ↦ none | some vs ↦ some (s ∷ vs) ]
    ]

unfoldable pub check_violations : Json → ℕ → Result ManifestError (Unit {0})
unfolding violations_of
check_violations value returncode = elim (as_list value) [
  | none ↦ err wrong_violations
  | some js ↦ elim (violations_of js) [
    | none ↦ err wrong_violations
    | some [] ↦ require (nat_eq returncode 0) nonzero_verifier
    | some (v ∷ vs) ↦ err (violations_reported (v ∷ vs))
  ]
]

unfoldable pub check_run : VerifierRun → Result ManifestError (Unit {0})
unfolding check_violations get
check_run run = elim run.stdout [
  | none ↦ err malformed_result
  | some j ↦ elim (as_dict j) [
    | none ↦ err wrong_result_schema
    | some result ↦
        require (equals_num (get result "schema_version") 1) wrong_result_schema
        >> check_violations (get result "violations") run.returncode
  ]
]

-- The file of the canonical verifier.
unfoldable pub check_canonical : Option RetainedFile → String → Result ManifestError (Unit {0})
check_canonical none expected = err no_verifier
check_canonical (some file) expected = require (file.sha256 == expected) wrong_verifier

unfoldable pub closure_blob : List ClosureEntry → String → Result ManifestError String
unfolding closure_blob_oid
closure_blob entries path = elim (closure_blob_oid entries path) [
  | none ↦ err (not_in_closure path)
  | some oid ↦ ok oid
]

-- The producer's verifier is the one of the closure.
unfoldable pub check_producer_verifier : List ClosureEntry → Json → Result ManifestError (Unit {0})
unfolding require_keys safe_path require_hex closure_blob get
check_producer_verifier entries value = do
  producer ← field (require_keys value ("path" ∷ "git_blob_oid" ∷ []) (plain "verifier.producer"))
  path ← field (safe_path (get producer "path") (plain "verifier.producer.path"))
  recorded ←
      field (require_hex (get producer "git_blob_oid") 40 (plain "verifier.producer.git_blob_oid"))
  actual ← closure_blob entries path
  require (recorded == actual) wrong_producer_verifier

-- A run of the verifier at a path on the manifest is a parameter.
unfoldable pub validate_verifier :
    (String → Option RetainedFile)
    → (String → VerifierRun)
    → List ClosureEntry
    → Json
    → Result ManifestError (Unit {0})
unfolding require_keys safe_path require_hex check_canonical check_producer_verifier check_run get
validate_verifier files run entries value = do
  verifier ← field (require_keys value ("canonical" ∷ "producer" ∷ []) (plain "verifier"))
  canonical ← field (
      require_keys (get verifier "canonical") ("path" ∷ "sha256" ∷ "result_model" ∷ [])
        (plain "verifier.canonical"))
  path ← field (safe_path (get canonical "path") (plain "verifier.canonical.path"))
  require (is_text (get canonical "result_model") "violations-v1") wrong_model
  expected ← field (require_hex (get canonical "sha256") 64 (plain "verifier.canonical.sha256"))
  check_canonical (files path) expected
  check_producer_verifier entries (get verifier "producer")
  check_run (run path)
