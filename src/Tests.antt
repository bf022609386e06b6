-- ===== src/Tests.antt =====
-- The theorems at a small repository: a workload with an MSRV and a fixture without one.
mod Codeql
mod Evidence
mod Provenance
mod Preflight
mod Recovery
mod Drift
mod Retention
use oxide_batch_workloads.Base.{
  ℕ, ◌≡◌, refl, ◌↔◌, ◌≤◌, String, true, false, not, ◌||◌, ◌==◌, Option, none, some, List, [], ◌∷◌,
  map, select, all, leb, length, distinct, sorted, if◌then◌else◌, All, ◌++◌,
}
use oxide_batch_workloads.Base.Dict.{lookup}
use oxide_batch_workloads.Base.Json.{Json, obj, arr, object, array, get}
use oxide_batch_workloads.Base.Text.{is_blank, has_char, has_text, split_char}
use oxide_batch_workloads.Base.Result.{Result, ok, err, is_ok}
use oxide_batch_workloads.Aggregate.{Inputs, compute_verdict, ShardResult}
use oxide_batch_workloads.Aggregate.Load.{
  load_results, load_files, load_file, load_record, differs, not_among, text_of, include_of,
  ResultFile,
}
use oxide_batch_workloads.Aggregate.Exact.{IsExact, compute_verdict-ok_iff}
use oxide_batch_workloads.Synthesis
use oxide_batch_workloads.Synthesis.{
  parse_entries, parse_loop, parse_entry, parse_named, parse_name, parse_policy, policy_of,
  solid_text, is_null, no_reason, synthesize,
}
use oxide_batch_workloads.Synthesis.Laws
use oxide_batch_workloads.Synthesis.Laws.{
  parse_entries-IsSound, synthesize_lem, is_ok-synthesize, synthetic_file, undeclared, no_collision,
  entry_names,
}
use oxide_batch_workloads.Pipeline.Stage.{main-msrv_iff, stage_args, passed}
use oxide_batch_workloads.Aggregate.Main
use oxide_batch_workloads.Registry.{
  Root, RegistryFile, Manifest, document, absent, value, workload, fixture, has_manifest, same_keys,
  load_registry, validate_name, path_parts, is_top_level, validate_top_level_path,
}
use oxide_batch_workloads.Registry.Msrv.{
  rust_version_of, read_rust_version, check_policy, validate_msrv,
}
use oxide_batch_workloads.Registry.Entry.{
  is_executable, validate_contract_entrypoint, validate_fields, validate_entry,
}
use oxide_batch_workloads.Registry.Repository.{
  Registry, get_list, insert_by_path, sort_by_path, validate_entries, is_project, reserve,
  candidates, check_accounted, validate_lists, validate_document, validate_repository,
}
use oxide_batch_workloads.Registry.Complete.{IsCompleteFor, validate_repository-IsComplete}
use oxide_batch_workloads.Discovery.{discover}
use oxide_batch_workloads.Discovery.Accepted.{kept, parse_entries-discover}
use oxide_batch_workloads.Discovery.Authority
use oxide_batch_workloads.Discovery.Authority.{IsAuthorised, main_iff}
use oxide_batch_workloads.Labels.{
  Policy, dedupe, select_type, add_areas, is_type, is_structural, reconcile_labels,
}
use oxide_batch_workloads.Labels.Reconciled.{
  IsReconciled, current_types, reconcile_labels-IsReconciled, reconcile_labels-one_type,
}
use oxide_batch_workloads.AuditIssue.{
  Issue, Tracker, Audit, Action, opened, closed, all_issues, owned_issues, is_open,
  reconcile_owned_issue,
}
use oxide_batch_workloads.AuditIssue.Lifecycle.{
  reconcile_owned_issue-fits, reconcile_owned_issue-closed,
}

abbrev manifest_at : String → Manifest
manifest_at path =
    if path == "csv"
    then document (("package", obj (object (("rust-version", Json.str "1.85") ∷ []))) ∷ [])
    else if path == "local"
    then document (("package", obj (object [])) ∷ [])
    else absent

abbrev root : Root
root = record {
  is_dir = λ path. path == "csv" || path == "local";
  manifest = manifest_at;
  entrypoint = λ path. some 0o755;
  children = ".git" ∷ "csv" ∷ "local" ∷ "README.md" ∷ [];
}

abbrev declared_msrv : Json
declared_msrv = obj (object (("declared", Json.bool true) ∷ []))

abbrev undeclared_msrv : Json
undeclared_msrv =
    obj (object (("declared", Json.bool false) ∷ ("policy_reason", Json.str "no floor") ∷ []))

abbrev raw_entry : String → String → Json → Json
raw_entry name path msrv =
    obj (object (("name", Json.str name) ∷ ("path", Json.str path) ∷ ("msrv", msrv) ∷ []))

abbrev file : RegistryFile
file = value (
    obj (
      object (
        ("schema_version", Json.num 3)
        ∷ ("workloads", arr (array (raw_entry "csv" "csv" declared_msrv ∷ [])))
        ∷ ("fixtures", arr (array (raw_entry "local" "local" undeclared_msrv ∷ [])))
        ∷ [])))

abbrev registry : Registry
registry = record {
  workloads =
      record {
        kind = workload;
        name = "csv";
        path = "csv";
        msrv = record { declared = true; version = some "1.85"; policy_reason = none };
      }
      ∷ [];
  fixtures =
      record {
        kind = fixture;
        name = "local";
        path = "local";
        msrv = record { declared = false; version = none; policy_reason = some "no floor" };
      }
      ∷ [];
}

accepted : validate_repository root file ≡ ok registry
unfolding validate_repository load_registry validate_document validate_lists validate_entries
    validate_entry validate_fields validate_name validate_top_level_path is_top_level path_parts
    split_char validate_contract_entrypoint is_executable validate_msrv read_rust_version
    rust_version_of check_policy same_keys get get_list lookup is_blank has_char has_manifest
    reserve check_accounted candidates is_project sort_by_path insert_by_path sorted
accepted = refl

validate_repository-IsComplete_example : IsCompleteFor root file registry
validate_repository-IsComplete_example = validate_repository-IsComplete root file registry accepted

abbrev matrix : Json
unfolding discover
matrix = discover registry

parse_entries-discover_example :
    parse_entries (some (discover registry))
    ≡ ok (map kept (registry.workloads ++ registry.fixtures))
parse_entries-discover_example = parse_entries-discover root file registry accepted

abbrev entries : List Synthesis.Entry
entries =
    record { name = "csv"; declared = true; reason = "" }
    ∷ record { name = "local"; declared = false; reason = "no floor" }
    ∷ []

parsed : parse_entries (some matrix) ≡ ok entries
unfolding discover parse_entries include_of parse_loop parse_entry parse_named parse_name
    parse_policy policy_of solid_text is_null no_reason get lookup is_blank has_char
parsed = refl

parse_entries-IsSound_example : All Laws.IsSound entries × (distinct (entry_names entries) ≡ true)
parse_entries-IsSound_example = parse_entries-IsSound (some matrix) parsed

abbrev run_result : ResultFile
run_result = record {
  name = "csv/result.json";
  content = some (
      obj (
        object (
          ("workload", Json.str "csv")
          ∷ ("stage", Json.str "msrv")
          ∷ ("status", Json.str "success")
          ∷ ("outcome", Json.str "validated")
          ∷ ("exit_code", Json.num 0)
          ∷ [])));
}

abbrev existing : ShardResult
existing = record {
  workload = "csv";
  stage = "msrv";
  status = "success";
  outcome = "validated";
  source = "csv/result.json";
}

read : load_results (some (run_result ∷ [])) "msrv" ≡ ok (existing ∷ [], [])
unfolding load_results load_files load_file load_record differs not_among text_of get lookup
read = refl

synthesize_lem_example :
    synthesize (some matrix) (some (run_result ∷ []))
    ≡ (map synthetic_file (undeclared entries), ok tt)
synthesize_lem_example = synthesize_lem (some matrix) (some (run_result ∷ [])) parsed read refl

is_ok-synthesize_example :
    is_ok (synthesize (some matrix) (some (run_result ∷ []))).1 ≡ no_collision ("csv" ∷ []) entries
is_ok-synthesize_example = is_ok-synthesize (some matrix) (some (run_result ∷ [])) parsed read

abbrev exits : String → ℕ
exits name = if name == "csv" then 1 else 0

abbrev source_of : String → String
source_of name = "result.json"

main-msrv_iff_example :
    (Main.main (stage_args source_of exits (("discover", "success") ∷ []) matrix entries) ≡ 0)
    ↔ (all (passed exits) entries ≡ true)
main-msrv_iff_example =
    main-msrv_iff source_of exits (("discover", "success") ∷ []) matrix entries parsed

abbrev inputs : Inputs
inputs = record {
  expected = record { name = "csv"; expected_outcome = "validated" } ∷ [];
  results = existing ∷ [];
  discovery_ok = true;
  upstream_job_ok = true;
  parse_errors = [];
  job_statuses = [];
}

compute_verdict-ok_iff_example : ((compute_verdict inputs).ok ≡ true) ↔ IsExact inputs
compute_verdict-ok_iff_example = compute_verdict-ok_iff inputs

abbrev scan : String → Result String ℕ
scan name = if name == "csv" then ok 0 else err "no graph"

main_iff_example :
    (Authority.main scan root file (some matrix) ≡ 0) ↔ IsAuthorised scan root file (some matrix)
main_iff_example = main_iff scan root file (some matrix)

abbrev policy : Policy
policy = record {
  known = "type:bug" ∷ "type:epic" ∷ "area:ci" ∷ "help" ∷ [];
  structural = "type:epic" ∷ [];
  type_prefix = "type:";
  workload_paths = [];
}

abbrev labelled : List String
labelled = "type:bug" ∷ "help" ∷ "type:epic" ∷ "help" ∷ []

abbrev wanted_labels : List String
wanted_labels = "type:epic" ∷ "help" ∷ "area:ci" ∷ []

reconciled :
    reconcile_labels labelled (some "type:bug") ("area:none" ∷ "area:ci" ∷ []) policy
    ≡ ok wanted_labels
unfolding reconcile_labels dedupe select_type add_areas sorted
reconciled = refl

reconcile_labels-IsReconciled_example :
    (selected : Option String) × (select_type
        (current_types labelled (some "type:bug") ("area:none" ∷ "area:ci" ∷ []) policy)
        (select
          (is_structural policy)
          (current_types labelled (some "type:bug") ("area:none" ∷ "area:ci" ∷ []) policy))
        (some "type:bug")
      ≡ ok selected)
    × IsReconciled labelled ("area:none" ∷ "area:ci" ∷ []) policy selected wanted_labels
reconcile_labels-IsReconciled_example =
    reconcile_labels-IsReconciled labelled (some "type:bug") ("area:none" ∷ "area:ci" ∷ []) policy
      wanted_labels reconciled

reconcile_labels-one_type_example : length (select (is_type policy) wanted_labels) ≤ 1
reconcile_labels-one_type_example =
    reconcile_labels-one_type labelled (some "type:bug") ("area:none" ∷ "area:ci" ∷ []) policy
      wanted_labels reconciled refl

abbrev audit : String → Audit
audit found = record {
  marker = "<!-- drift -->";
  title = "Drift";
  labels = "area:ci" ∷ [];
  classification = found;
  clean_classification = "clean";
  body = "<!-- drift --> two settings differ";
  run_url = "https://example.org/1";
}

abbrev tracker : Tracker
tracker = record {
  issues =
      record {
        number = 3;
        state = closed;
        title = "Other";
        body = "text";
        labels = [];
        is_pull_request = false;
        comments = [];
      }
      ∷ record {
        number = 4;
        state = opened;
        title = "Old drift";
        body = "<!-- drift --> one";
        labels = [];
        is_pull_request = false;
        comments = [];
      }
      ∷ [];
  next = 5;
}

at_most_one : leb (length (owned_issues "<!-- drift -->" tracker)) 1 ≡ true
unfolding owned_issues all_issues has_text
at_most_one = refl

marked : has_text "<!-- drift -->" "<!-- drift --> two settings differ" ≡ true
unfolding has_text
marked = refl

reconcile_owned_issue-fits_example :
    (t' : Tracker) × (action : Action) × (i : Issue) × (reconcile_owned_issue
        (audit "drift")
        tracker
      ≡ ok (t', action))
    × (owned_issues "<!-- drift -->" t' ≡ i ∷ [])
    × (i.state ≡ opened)
    × (i.title ≡ "Drift")
    × (i.body ≡ "<!-- drift --> two settings differ")
    × (i.labels ≡ "area:ci" ∷ [])
reconcile_owned_issue-fits_example =
    reconcile_owned_issue-fits (audit "drift") tracker refl marked refl at_most_one

reconcile_owned_issue-closed_example :
    (t' : Tracker) × (action : Action) × (reconcile_owned_issue (audit "clean") tracker
      ≡ ok (t', action))
    × (all (λ (i : Issue). not (is_open i.state)) (owned_issues "<!-- drift -->" t') ≡ true)
reconcile_owned_issue-closed_example =
    reconcile_owned_issue-closed (audit "clean") tracker refl refl at_most_one
