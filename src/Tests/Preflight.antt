-- ===== src/Tests/Preflight.antt =====
-- A candidate with an active run, which completes when it is asked for.
use oxide_batch_workloads.Base.{
  ◌≡◌, refl, ℕ, ◌+◌, ◌≤◌, String, true, false, ◌==◌, none, some, List, [], ◌∷◌, map, is_some, arith,
  if◌then◌else◌, ◌<>◌,
}
use oxide_batch_workloads.Base.Dict.{Dict, lookup}
use oxide_batch_workloads.Base.Json.{Json, obj, arr, object, array, get, as_dict}
use oxide_batch_workloads.Base.SameJson.{same_json, same_items, same_fields, find_field}
use oxide_batch_workloads.Base.Text.{is_lower_hex, split_char, all_chars, replace_char}
use oxide_batch_workloads.Base.Result.{ok, is_ok}
use oxide_batch_workloads.Preflight.{
  Request, main_ref, compare, codeql_workflow, runs, run, jobs, artifacts, commit, answer,
  at_moment, Outside, State, Candidate, languages, workflow_path, is_repo, get_in, get_or_in, item,
  api, check_workflow,
}
use oxide_batch_workloads.Preflight.Effects.{◌>>=◌}
use oxide_batch_workloads.Preflight.Metadata.{
  exact, check_run_identity, check_created, name_in, same_names, check_finished, check_jobs,
  artifact_names, check_names, check_artifact, check_expiry, check_rows, check_artifacts, metadata,
  job_name, expected_artifacts,
}
use oxide_batch_workloads.Preflight.Checks.{
  main_of, check_reachable, tree_of, expected_identity, check_identity, manifest, dicts_of, rows_of,
  own_rows, created_key, insert_newest, sort_newest, newest_first,
}
use oxide_batch_workloads.Preflight.Inspect.{
  ancestry, check_metadata, tree, fetch, check_language, language_loop, inspect,
}
use oxide_batch_workloads.Preflight.Discover.{
  workflow, page_loop, candidates, known_ids, is_fresh, has_extra,
}
use oxide_batch_workloads.Preflight.Live.{
  check_existing, selected_id, check_observed_runs, check_selected, watch, round, poll, settle,
  prepare, verify_live,
}
use oxide_batch_workloads.Preflight.Bounded.{Forward, verify_live-is_some}
use oxide_batch_workloads.Preflight.Once.{verify_live-once}
use oxide_batch_workloads.Preflight.Released.{IsOwn, verify_live-IsVerified}
use oxide_batch_workloads.Preflight.Evidence.{HasAll, metadata-HasAll}
use oxide_batch_workloads.Preflight.Verified.{IsVerified}

abbrev dict : Dict Json → Json
dict d = obj (object d)

abbrev list : List Json → Json
list js = arr (array js)

abbrev sha : String
sha = "aaaaaaaaaaaaaaaaaaaaaaaaaaaaaaaaaaaaaaaa"

abbrev head : String
head = "bbbbbbbbbbbbbbbbbbbbbbbbbbbbbbbbbbbbbbbb"

abbrev candidate : Candidate
candidate = record { repo = "owner/repo"; sha = sha }

abbrev run_with : String → List (String × Json) → Dict Json
run_with status more =
    ("id", Json.num 7)
    ∷ ("workflow_id", Json.num 42)
    ∷ ("path", Json.str workflow_path)
    ∷ ("event", Json.str "schedule")
    ∷ ("head_branch", Json.str "main")
    ∷ ("head_repository", dict (("full_name", Json.str "owner/repo") ∷ []))
    ∷ ("head_sha", Json.str sha)
    ∷ ("run_attempt", Json.num 1)
    ∷ ("created_at", Json.str "2026-10-15T00:00:00Z")
    ∷ ("status", Json.str status)
    ∷ more

abbrev finished_run : Dict Json
finished_run = run_with "completed" (("conclusion", Json.str "success") ∷ [])

abbrev job : String → Json
job language = dict (
    ("name", Json.str (job_name language))
    ∷ ("status", Json.str "completed")
    ∷ ("conclusion", Json.str "success")
    ∷ [])

abbrev artifact : String → Json
artifact name = dict (
    ("name", Json.str name)
    ∷ ("id", Json.num 1)
    ∷ ("size_in_bytes", Json.num 100)
    ∷ ("expired", Json.bool false)
    ∷ [])

abbrev fields_of : Json → Dict Json
fields_of j = elim (as_dict j) [ none ↦ [] | some d ↦ d ]

abbrev runs_page : String → Json
runs_page event =
    if event == "schedule"
    then dict (("workflow_runs", list (dict (run_with "queued" []) ∷ [])) ∷ [])
    else dict (("workflow_runs", list []) ∷ [])

abbrev replies : Request → Json
replies main_ref = dict (("object", dict (("sha", Json.str head) ∷ [])) ∷ [])
replies (compare base with_head) = dict (
    ("status", Json.str "ahead")
    ∷ ("base_commit", dict (("sha", Json.str sha) ∷ []))
    ∷ ("merge_base_commit", dict (("sha", Json.str sha) ∷ []))
    ∷ [])
replies codeql_workflow =
    dict
      (("id", Json.num 42) ∷ ("path", Json.str workflow_path) ∷ ("state", Json.str "active") ∷ [])
replies (runs event page) = runs_page event
replies (run id) = dict finished_run
replies (jobs id) = dict (("total_count", Json.num 4) ∷ ("jobs", list (map job languages)) ∷ [])
replies (artifacts id) =
    dict (
      ("total_count", Json.num 8)
      ∷ ("artifacts", list (map artifact (expected_artifacts sha)))
      ∷ [])
replies (commit id) =
    dict (("sha", Json.str sha) ∷ ("tree", dict (("sha", Json.str head) ∷ [])) ∷ [])

abbrev language_in : String → List String → String
language_in name [] = ""
language_in name (l ∷ ls) =
    let rest = language_in name ls in
    if name == ("codeql-source-" <> sha <> "-" <> l) then l else rest

-- The clock counts the seconds that the script has slept.
abbrev outside : Outside ℕ
outside = record {
  gh_get = λ r w. (answer (replies r), w);
  gh_dispatch = λ w. (true, w);
  download = λ id name w. (
    some (record {
      identities =
          some (
            dict (
              expected_identity finished_run candidate (Json.str head)
                (language_in name languages)))
          ∷ [];
      passes = λ l. true;
    }),
    w,
  );
  fromisoformat = λ s. at_moment 5;
  now = λ w. 10;
  monotonic = λ w. w;
  sleep = λ n w. w + n;
}

abbrev before_run : State ℕ
before_run = record { dispatches = 0; world = 3 }

forward : Forward outside
forward = record {
  after_get = λ r w. ground arith;
  after_download = λ id name w. ground arith;
  after_sleep = λ n w. ground arith;
}

succeeds : verify_live outside candidate 281 true 4200 15 before_run ≡ some (ok tt, before_run)
unfolding verify_live prepare ancestry is_repo split_char all_chars is_lower_hex ◌>>=◌ api main_of
    get_in check_reachable get lookup workflow check_workflow item candidates page_loop rows_of
    dicts_of own_rows get_or_in same_json same_items same_fields find_field newest_first sort_newest
    insert_newest created_key check_existing known_ids settle selected_id poll round
    check_observed_runs has_extra is_fresh watch check_selected exact inspect check_metadata
    metadata check_run_identity check_created replace_char check_jobs name_in same_names
    check_finished check_artifacts check_rows check_names artifact_names check_expiry check_artifact
    tree tree_of language_loop check_language fetch manifest check_identity
succeeds = refl

verify_live-IsVerified_example :
    (workflow_id : Json) × IsOwn outside candidate workflow_id
    × (id : Json) × IsVerified outside candidate workflow_id id
verify_live-IsVerified_example =
    verify_live-IsVerified outside candidate 281 true 4200 15 before_run before_run succeeds

verify_live-once_example : before_run.dispatches ≤ before_run.dispatches + 1
verify_live-once_example =
    verify_live-once outside candidate 281 true 4200 15 before_run before_run (ok tt) succeeds

verify_live-is_some_example :
    is_some (verify_live outside candidate 281 true 4200 15 before_run) ≡ true
verify_live-is_some_example =
    verify_live-is_some outside candidate forward true 280 4200 15 before_run (ground arith)

accepted_record :
    is_ok (
      metadata
        (λ s. at_moment 5)
        10
        finished_run
        (Json.num 42)
        (fields_of (replies (jobs Json.null)))
        (fields_of (replies (artifacts Json.null)))
        candidate
        false)
    ≡ true
unfolding get lookup get_or_in same_json same_items same_fields find_field metadata
    check_run_identity check_created replace_char check_jobs name_in same_names check_finished
    check_artifacts check_rows check_names artifact_names check_expiry check_artifact
accepted_record = refl

metadata-HasAll_example : HasAll (fields_of (replies (artifacts Json.null))) sha
metadata-HasAll_example =
    metadata-HasAll (λ s. at_moment 5) 10 finished_run (Json.num 42)
      (fields_of (replies (jobs Json.null))) (fields_of (replies (artifacts Json.null))) candidate
      accepted_record
