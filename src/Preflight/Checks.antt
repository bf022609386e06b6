-- ===== src/Preflight/Checks.antt =====
-- The answers that `ancestry`, `tree`, `manifest` and `candidates` get, and the checks on them.
use oxide_batch_workloads.Base.{
  String, Bool, ◌&&◌, ◌||◌, ◌<>◌, Option, none, some, List, [], ◌∷◌, all, length, leb, text_leb,
  is_some, if◌then◌else◌,
}
use oxide_batch_workloads.Base.Dict.{Dict, lookup}
use oxide_batch_workloads.Base.Json.{Json, get, as_dict, as_list, as_str}
use oxide_batch_workloads.Base.SameJson.{same_json}
use oxide_batch_workloads.Base.Result.{Result, ok, err, ◌>>=◌, ◌>>◌, require}
use oxide_batch_workloads.Codeql.Coverage.{equals_text}
use oxide_batch_workloads.Preflight.{
  PreflightError, malformed_main, not_reachable, malformed_tree, ambiguous_manifest,
  provenance_mismatch, no_json, invalid_runs, malformed_run, type_error, workflow_path, Candidate,
  is_sha_text, get_in, get_or_in,
}

-- The commit of main.
unfoldable pub main_of : Dict Json → Result PreflightError String
unfolding get_in
main_of d = do
  sha ← get_in d "object" "sha"
  elim (as_str sha) [
    | none ↦ err malformed_main
    | some s ↦ if is_sha_text sha then ok s else err malformed_main
  ]

-- The comparison of the candidate with main.
unfoldable pub check_reachable : Dict Json → String → Result PreflightError (Unit {0})
unfolding get get_in
check_reachable d sha = do
  require (equals_text (get d "status") "ahead" || equals_text (get d "status") "identical")
      not_reachable
  base ← get_in d "base_commit" "sha"
  require (equals_text base sha) not_reachable
  merge_base ← get_in d "merge_base_commit" "sha"
  require (equals_text merge_base sha) not_reachable

-- The tree of the candidate; `found` is read before the tests.
unfoldable pub tree_of : Dict Json → String → Result PreflightError Json
unfolding get get_in
tree_of d sha = do
  found ← get_in d "tree" "sha"
  require (equals_text (get d "sha") sha && is_sha_text found) malformed_tree
  ok found

-- What source-identity.json has to say.
abbrev pub expected_identity : Dict Json → Candidate → Json → String → Dict Json
expected_identity run c tree language =
    ("schema", Json.num 1)
    ∷ ("repository", Json.str c.repo)
    ∷ ("workflow_path", Json.str workflow_path)
    ∷ ("workflow_ref", Json.str (c.repo <> "/" <> workflow_path <> "@refs/heads/main"))
    ∷ ("workflow_sha", get run "head_sha")
    ∷ ("event_name", get run "event")
    ∷ ("event_sha", get run "head_sha")
    ∷ ("candidate_sha", Json.str c.sha)
    ∷ ("checkout_sha", Json.str c.sha)
    ∷ ("candidate_tree", tree)
    ∷ ("run_id", get run "id")
    ∷ ("run_attempt", Json.num 1)
    ∷ ("language", Json.str language)
    ∷ []

abbrev pub agrees : Dict Json → Dict Json → Bool
agrees doc expected = all (λ e. same_json (get doc (e.0)) (e.1)) expected

unfoldable pub check_identity : Json → Dict Json → Result PreflightError (Unit {0})
unfolding get
check_identity doc expected = elim (as_dict doc) [
  | none ↦ err provenance_mismatch
  | some d ↦ require (agrees d expected) provenance_mismatch
]

-- The only source-identity.json of a download.
unfoldable pub manifest : List (Option Json) → Dict Json → Result PreflightError (Unit {0})
unfolding check_identity
manifest [] expected = err ambiguous_manifest
manifest (none ∷ []) expected = err no_json
manifest (some doc ∷ []) expected = check_identity doc expected
manifest (f ∷ f2 ∷ fs) expected = err ambiguous_manifest

-- The rows of one page of runs, all of them dicts.
unfoldable pub dicts_of : List Json → Result PreflightError (List (Dict Json))
dicts_of [] = ok []
dicts_of (j ∷ js) = elim (as_dict j) [
  | none ↦ err malformed_run
  | some d ↦ dicts_of js >>= λ ds. ok (d ∷ ds)
]

unfoldable pub rows_of : Dict Json → Result PreflightError (List (Dict Json))
unfolding get dicts_of
rows_of payload = elim (as_list (get payload "workflow_runs")) [
  | none ↦ err invalid_runs
  | some rows ↦ require (leb (length rows) 100) invalid_runs >> dicts_of rows
]

-- The tests before the head repository, which may raise.
abbrev pub on_main : Json → Dict Json → Bool
on_main workflow_id row =
    same_json (get row "workflow_id") workflow_id
    && (equals_text (get row "path") workflow_path && equals_text (get row "head_branch") "main")

-- The rows of the workflow on main of this repository.
unfoldable pub own_rows :
    Json → String → List (Dict Json) → Result PreflightError (List (Dict Json))
unfolding get get_or_in
own_rows workflow_id repo [] = ok []
own_rows workflow_id repo (row ∷ rows) =
    let later = own_rows workflow_id repo rows in
    if on_main workflow_id row
    then (get_or_in row "head_repository" "full_name" >>= λ name.
        later >>= λ rest. ok (if equals_text name repo then row ∷ rest else rest))
    else later

-- `row.get("created_at", "")`
unfoldable pub created_key : Dict Json → Json
unfolding lookup
created_key row = elim (lookup "created_at" row) [ none ↦ Json.str "" | some j ↦ j ]

abbrev key_text : Dict Json → String
key_text row = elim (as_str (created_key row)) [ none ↦ "" | some s ↦ s ]

unfoldable pub insert_newest : Dict Json → List (Dict Json) → List (Dict Json)
unfolding created_key
insert_newest row [] = row ∷ []
insert_newest row (r ∷ rs) =
    let later = r ∷ insert_newest row rs in
    if text_leb (key_text r) (key_text row) then row ∷ r ∷ rs else later

unfoldable pub sort_newest : List (Dict Json) → List (Dict Json)
unfolding insert_newest
sort_newest [] = []
sort_newest (row ∷ rows) = insert_newest row (sort_newest rows)

-- `sorted(…, reverse=True)`, which keeps the order of equal keys. The times of an answer are texts
-- or missing; others are taken not to be comparable, as None is not.
unfoldable pub newest_first : List (Dict Json) → Result PreflightError (List (Dict Json))
unfolding created_key sort_newest
newest_first rows =
    if leb (length rows) 1 || all (λ row. is_some (as_str (created_key row))) rows
    then ok (sort_newest rows)
    else err type_error
