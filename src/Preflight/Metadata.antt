-- ===== src/Preflight/Metadata.antt =====
-- `exact` and `metadata`: which run is of the candidate, and whether its record can be trusted.
use oxide_batch_workloads.Base.{
  ℕ, String, Bool, true, false, not, ◌&&◌, ◌||◌, ◌<>◌, Option, none, some, List, [], ◌∷◌, ◌++◌, map,
  all, any, contains, distinct, length, leb, ltb, nat_eq, is_none, is_some, if◌then◌else◌,
}
use oxide_batch_workloads.Base.Dict.{Dict}
use oxide_batch_workloads.Base.Json.{Json, get, as_dict, as_list, as_str, equals_num, hashable}
use oxide_batch_workloads.Base.SameJson.{same_json}
use oxide_batch_workloads.Base.Text.{replace_char}
use oxide_batch_workloads.Base.Result.{Result, ok, err, ◌>>=◌, ◌>>◌, reject_if, require}
use oxide_batch_workloads.Codeql.Coverage.{equals_text}
use oxide_batch_workloads.Preflight.{
  PreflightError, untrusted_run, invalid_creation, future_scan, bad_jobs, bad_listing, bad_artifact,
  malformed_artifact, unknown_expiry, missing_evidence, attribute_error, type_error, languages,
  workflow_path, Creation, no_time, naive, at_moment, Candidate, get_or_in, is_int,
}

unfoldable pub exact : Dict Json → String → Bool
unfolding get
exact run sha =
    if equals_text (get run "event") "workflow_dispatch"
    then equals_text (get run "display_title") ("CodeQL source " <> sha)
    else equals_text (get run "event") "schedule" && same_json (get run "head_sha") (Json.str sha)

abbrev is_event : Json → Bool
is_event j = equals_text j "workflow_dispatch" || equals_text j "schedule"

-- The identity and the state of the run; the chain of `or` stops at the head repository, which may raise.
unfoldable pub check_run_identity : Dict Json → Json → String → Result PreflightError (Unit {0})
unfolding get get_or_in
check_run_identity run workflow_id repo = do
  require (same_json (get run "workflow_id") workflow_id) untrusted_run
  require (equals_text (get run "path") workflow_path) untrusted_run
  require (is_event (get run "event")) untrusted_run
  require (equals_text (get run "head_branch") "main") untrusted_run
  name ← get_or_in run "head_repository" "full_name"
  require (equals_text name repo) untrusted_run
  require (equals_text (get run "status") "completed") untrusted_run
  require (equals_text (get run "conclusion") "success") untrusted_run
  require (equals_num (get run "run_attempt") 1) untrusted_run

abbrev check_moment : Creation → ℕ → Result PreflightError (Unit {0})
check_moment no_time now = err invalid_creation
check_moment naive now = err future_scan
check_moment (at_moment t) now = reject_if (ltb now t) future_scan

-- A missing time raises KeyError and one that is no text AttributeError; both are caught.
unfoldable pub check_created :
    (String → Creation) → ℕ → Dict Json → Result PreflightError (Unit {0})
unfolding get replace_char
check_created fromisoformat now run = elim (as_str (get run "created_at")) [
  | none ↦ err invalid_creation
  | some s ↦ check_moment (fromisoformat (replace_char b'Z' "+00:00" s)) now
]

abbrev pub job_name : String → String
job_name language = "codeql (" <> language <> ")"

abbrev pub expected_jobs : List String
expected_jobs = map job_name languages

-- `row.get("name")`, of a row that is a dict.
unfoldable pub name_in : Json → Json
unfolding get
name_in j = elim (as_dict j) [ none ↦ Json.null | some d ↦ get d "name" ]

abbrev pub has_name : Json → String → Bool
has_name j s = equals_text (name_in j) s

-- `{row.get("name") for row in rows if isinstance(row, dict)} == expected_jobs`
unfoldable pub same_names : List Json → Bool
unfolding name_in
same_names rows =
    all (λ j. is_none (as_dict j) || any (has_name j) expected_jobs) rows
    && all (λ s. any (λ j. has_name j s) rows) expected_jobs

-- A row that is no dict raises AttributeError; it cannot be there once the names are right.
unfoldable pub check_finished : List Json → Result PreflightError (Unit {0})
unfolding get
check_finished [] = ok tt
check_finished (j ∷ js) = elim (as_dict j) [
  | none ↦ err attribute_error
  | some d ↦
      require
        (equals_text (get d "status") "completed" && equals_text (get d "conclusion") "success")
        bad_jobs
      >> check_finished js
]

unfoldable pub check_jobs : Dict Json → Result PreflightError (Unit {0})
unfolding get name_in same_names check_finished
check_jobs d = do
  require (equals_num (get d "total_count") (length languages)) bad_jobs
  elim (as_list (get d "jobs")) [
    | none ↦ err bad_jobs
    | some rows ↦ do
      require (nat_eq (length rows) (length languages)) bad_jobs
      require (all (λ j. hashable (name_in j)) rows) type_error
      require (same_names rows) bad_jobs
      check_finished rows
  ]

abbrev pub sarif_name : String → String → String
sarif_name sha language = "codeql-" <> sha <> "-" <> language

abbrev pub source_name : String → String → String
source_name sha language = "codeql-source-" <> sha <> "-" <> language

abbrev pub expected_artifacts : String → List String
expected_artifacts sha = map (sarif_name sha) languages ++ map (source_name sha) languages

-- The names, if every row is a dict with a text for its name.
unfoldable pub artifact_names : List Json → Option (List String)
unfolding name_in
artifact_names [] = some []
artifact_names (j ∷ js) =
    let rest = artifact_names js in
    elim (as_str (name_in j)) [
      | none ↦ none
      | some s ↦ elim rest [ none ↦ none | some names ↦ some (s ∷ names) ]
    ]

-- The names are distinct and all expected; a name that is no text is none of the expected ones.
unfoldable pub check_names : String → List Json → Result PreflightError (Unit {0})
unfolding name_in artifact_names
check_names sha rows = do
  require (all (λ j. is_some (as_dict j)) rows) bad_artifact
  require (all (λ j. hashable (name_in j)) rows) type_error
  elim (artifact_names rows) [
    | none ↦ err bad_artifact
    | some names ↦
        require (distinct names && all (contains (expected_artifacts sha)) names) bad_artifact
  ]

-- `isinstance(j, int) and j > 0`
abbrev pub is_positive : Json → Bool
is_positive (Json.num n) = ltb 0 n
is_positive (Json.bool b) = b
is_positive j = false

abbrev pub is_null : Json → Bool
is_null Json.null = true
is_null j = false

-- `expired is True`, or else it has to be False.
abbrev pub expiry : Json → Result PreflightError Bool
expiry (Json.bool b) = ok b
expiry j = err unknown_expiry

-- Whether the artifact has expired.
unfoldable pub check_artifact : Dict Json → Dict Json → Result PreflightError Bool
unfolding get get_or_in
check_artifact run row = do
  require (is_int (get row "id")) malformed_artifact
  require (is_positive (get row "size_in_bytes")) malformed_artifact
  source ← get_or_in row "workflow_run" "head_sha"
  require (is_null source || same_json source (get run "head_sha")) malformed_artifact
  expiry (get row "expired")

-- Whether some artifact has expired.
unfoldable pub check_expiry : Dict Json → List Json → Result PreflightError Bool
unfolding check_artifact
check_expiry run [] = ok false
check_expiry run (j ∷ js) = elim (as_dict j) [
  | none ↦ err attribute_error
  | some row ↦ check_artifact run row >>= λ gone. check_expiry run js >>= λ more. ok (gone || more)
]

-- The listed artifacts: whether all are there and none has expired.
unfoldable pub check_rows : Dict Json → List Json → String → Bool → Result PreflightError Bool
unfolding check_names check_expiry
check_rows run rows sha allow_missing = do
  check_names sha rows
  expired ← check_expiry run rows
  if not (nat_eq (length rows) 8) || expired
      then (if allow_missing then ok false else err missing_evidence)
      else ok true

unfoldable pub check_artifacts : Dict Json → Dict Json → String → Bool → Result PreflightError Bool
unfolding get check_rows
check_artifacts run artifacts sha allow_missing = elim (as_list (get artifacts "artifacts")) [
  | none ↦ err bad_listing
  | some rows ↦
      require (equals_num (get artifacts "total_count") (length rows) && leb (length rows) 8)
        bad_listing
      >> check_rows run rows sha allow_missing
]

unfoldable pub metadata :
    (String → Creation)
    → ℕ
    → Dict Json
    → Json
    → Dict Json
    → Dict Json
    → Candidate
    → Bool
    → Result PreflightError Bool
unfolding check_run_identity check_created check_jobs check_artifacts
metadata fromisoformat now run workflow_id jobs artifacts c allow_missing = do
  check_run_identity run workflow_id c.repo
  check_created fromisoformat now run
  check_jobs jobs
  check_artifacts run artifacts c.sha allow_missing
