-- ===== src/Preflight/Discover.antt =====
-- `workflow` and `candidates`: the runs of the CodeQL workflow on main, newest first.
use oxide_batch_workloads.Base.{
  ℕ, String, Bool, true, false, not, ◌&&◌, List, [], ◌∷◌, ◌++◌, length, ltb, any, if◌then◌else◌,
}
use oxide_batch_workloads.Base.Dict.{Dict}
use oxide_batch_workloads.Base.Json.{Json, get, equals_num, hashable}
use oxide_batch_workloads.Base.SameJson.{same_json}
use oxide_batch_workloads.Base.Result.{Result, ok, err}
use oxide_batch_workloads.Codeql.Coverage.{equals_text}
use oxide_batch_workloads.Preflight.{
  PreflightError, exhausted, type_error, codeql_workflow, runs, Outside, State, Candidate,
  check_workflow, is_int, api,
}
use oxide_batch_workloads.Preflight.Effects.{Act, lift, returns, ◌>>=◌}
use oxide_batch_workloads.Preflight.Metadata.{exact}
use oxide_batch_workloads.Preflight.Checks.{rows_of, own_rows, newest_first}

abbrev pub pages : List ℕ
pages = 1 ∷ 2 ∷ 3 ∷ 4 ∷ 5 ∷ 6 ∷ 7 ∷ 8 ∷ 9 ∷ 10 ∷ []

module _ {W : Type 0} (g : Outside W) (c : Candidate) where
  unfoldable pub workflow : Act (State W) PreflightError (Dict Json)
  unfolding api check_workflow
  workflow = api g codeql_workflow >>= λ value. lift (check_workflow value)

  -- The pages of one event, until one is not full.
  unfoldable pub page_loop :
      String → Json → List ℕ → Act (State W) PreflightError (List (Dict Json))
  unfolding api rows_of own_rows
  page_loop event workflow_id [] = lift (err exhausted)
  page_loop event workflow_id (page ∷ more) = do
    payload ← api g (runs event page)
    rows ← lift (rows_of payload)
    own ← lift (own_rows workflow_id c.repo rows)
    if ltb (length rows) 100
        then returns own
        else (page_loop event workflow_id more >>= λ rest. returns (own ++ rest))

  unfoldable pub candidates : Json → Act (State W) PreflightError (List (Dict Json))
  unfolding page_loop newest_first
  candidates workflow_id = do
    dispatched ← page_loop "workflow_dispatch" workflow_id pages
    scheduled ← page_loop "schedule" workflow_id pages
    lift (newest_first (dispatched ++ scheduled))

-- The ids that are integers.
unfoldable pub known_ids : List (Dict Json) → List Json
unfolding get
known_ids [] = []
known_ids (row ∷ rows) =
    let rest = known_ids rows in if is_int (get row "id") then get row "id" ∷ rest else rest

-- `row.get("id") not in before`: a set cannot be asked for a list or a dict.
unfoldable pub is_fresh : List Json → Dict Json → Result PreflightError Bool
unfolding get same_json
is_fresh before row =
    if hashable (get row "id")
    then ok (not (any (same_json (get row "id")) before))
    else err type_error

-- A dispatched run of the candidate on its first attempt.
unfoldable pub is_new_run : String → Dict Json → Bool
unfolding get exact
is_new_run sha row =
    equals_text (get row "event") "workflow_dispatch"
    && (exact row sha && equals_num (get row "run_attempt") 1)

unfoldable pub newly_found :
    List Json → String → List (Dict Json) → Result PreflightError (List (Dict Json))
unfolding is_fresh is_new_run
newly_found before sha [] = ok []
newly_found before sha (row ∷ rows) = elim (is_fresh before row) [
  | err e ↦ err e
  | ok fresh ↦ elim (newly_found before sha rows) [
    | err e ↦ err e
    | ok rest ↦ ok (if fresh && is_new_run sha row then row ∷ rest else rest)
  ]
]

-- Whether some run is neither known nor the selected one.
unfoldable pub has_extra : List Json → Json → List (Dict Json) → Result PreflightError Bool
unfolding is_fresh get same_json
has_extra before selected [] = ok false
has_extra before selected (row ∷ rows) = elim (is_fresh before row) [
  | err e ↦ err e
  | ok fresh ↦
      if fresh && not (same_json (get row "id") selected)
      then ok true
      else has_extra before selected rows
]
