-- ===== src/Preflight/Live.antt =====
-- `verify_live`: reuse the completed runs of the candidate, join its active run, or dispatch one.
use oxide_batch_workloads.Base.{
  ℕ, zero, suc, ◌+◌, String, Bool, true, false, not, ◌&&◌, Option, none, some, List, [], ◌∷◌,
  length, ltb, any, select, is_empty, if◌then◌else◌,
}
use oxide_batch_workloads.Base.Dict.{Dict}
use oxide_batch_workloads.Base.Json.{Json, get, equals_num, truthy}
use oxide_batch_workloads.Base.Result.{Result, ok, err, require}
use oxide_batch_workloads.Codeql.Coverage.{equals_text}
use oxide_batch_workloads.Preflight.{
  PreflightError, attribute_error, missing_token, ambiguous_rerun, ambiguous_active,
  failed_existing, active_and_completed, ambiguous_dispatch, concurrent_active,
  failed_during_refresh, concurrent_extra, timed_out_discovery, changed_selected,
  ambiguous_selected, timed_out_run, ended, invalid_completed, failed_polling, run, Outside, State,
  Candidate, item, api, dispatch,
}
use oxide_batch_workloads.Preflight.Effects.{Act, lift, returns, rethrow, ◌>>=◌, ◌>>◌}
use oxide_batch_workloads.Preflight.Metadata.{exact}
use oxide_batch_workloads.Preflight.Inspect.{ancestry, evidence_available, inspect}
use oxide_batch_workloads.Preflight.Discover.{
  workflow, candidates, known_ids, newly_found, has_extra,
}

abbrev pub is_completed : Dict Json → Bool
is_completed row = equals_text (get row "status") "completed"

abbrev pub is_successful : Dict Json → Bool
is_successful row = equals_text (get row "conclusion") "success"

abbrev pub is_first_attempt : Dict Json → Bool
is_first_attempt row = equals_num (get row "run_attempt") 1

abbrev pub active : List (Dict Json) → List (Dict Json)
active rows = select (λ row. not (is_completed row)) rows

abbrev pub completed : List (Dict Json) → List (Dict Json)
completed rows = select (λ row. is_completed row) rows

-- The exceptions that the `except` clauses name; an AttributeError is not among them.
abbrev pub is_caught : PreflightError → Bool
is_caught attribute_error = false
is_caught e = true

-- What the runs found at first must satisfy.
unfoldable pub check_existing : List (Dict Json) → Result PreflightError (Unit {0})
unfolding get
check_existing rows =
    if any (λ row. not (is_first_attempt row)) rows
    then err ambiguous_rerun
    else if ltb 1 (length (active rows))
    then err ambiguous_active
    else if any (λ row. not (is_successful row)) (completed rows)
    then err failed_existing
    else if not (is_empty (active rows)) && not (is_empty (completed rows))
    then err active_and_completed
    else ok tt

-- `selected = row["id"]`, where a null stays None.
unfoldable pub selected_id : Dict Json → Result PreflightError (Option Json)
unfolding item
selected_id row = elim (item row "id") [
  | err e ↦ err e
  | ok Json.null ↦ ok none
  | ok j ↦ ok (some j)
]

-- The id of the only new run, if there is one.
unfoldable pub sole_id : List (Dict Json) → Result PreflightError (Option Json)
unfolding selected_id
sole_id [] = ok none
sole_id (row ∷ []) = selected_id row
sole_id (row ∷ row2 ∷ rows) = err ambiguous_dispatch

abbrev find_selected :
    Result PreflightError (List (Dict Json)) → Result PreflightError (Option Json)
find_selected (err e) = err e
find_selected (ok rows) = sole_id rows

abbrev refuse_extra : Json → Result PreflightError Bool → Result PreflightError (Option Json)
refuse_extra selected (err e) = err e
refuse_extra selected (ok true) = err concurrent_extra
refuse_extra selected (ok false) = ok (some selected)

-- What the runs seen while waiting must satisfy; the run that is waited for, if it is known.
unfoldable pub check_observed_runs :
    List Json → String → Option Json → List (Dict Json) → Result PreflightError (Option Json)
unfolding newly_found has_extra sole_id
check_observed_runs before sha selected rows =
    if ltb 1 (length (active rows))
    then err concurrent_active
    else if any (λ row. is_completed row && not (is_successful row)) rows
    then err failed_during_refresh
    else elim selected [
      | none ↦ find_selected (newly_found before sha rows)
      | some id ↦ refuse_extra id (has_extra before id rows)
    ]

-- How a round of the loop ends: the run has been inspected, or the script waits, for a run if it is known.
pub data Round : Type 0 where
  inspected : Round
  waiting : Option Json → Round

-- The checks on the run that is waited for: whether it has completed.
unfoldable pub check_selected : Json → Dict Json → String → Result PreflightError Bool
unfolding get exact
check_selected id state sha =
    if not (exact state sha)
    then err (changed_selected id)
    else if not (is_first_attempt state)
    then err (ambiguous_selected id)
    else if not (is_completed state)
    then ok false
    else if is_successful state
    then ok true
    else err (ended id (get state "conclusion"))

abbrev timed_out : Option Json → PreflightError
timed_out none = timed_out_discovery
timed_out (some id) = if truthy id then timed_out_run id else timed_out_discovery

-- What follows a round: nothing, or the next one.
abbrev pub after_round :
    {W : Type 0}
    → (Option Json → State W → Option (Result PreflightError (Unit {0}) × State W))
    → Result PreflightError Round × State W
    → Option (Result PreflightError (Unit {0}) × State W)
after_round next_round (err e, t) = some (err e, t)
after_round next_round (ok inspected, t) = some (ok tt, t)
after_round next_round (ok (waiting selected), t) = next_round selected t

-- What follows the choice: nothing, or the loop.
abbrev pub after_prepared :
    {W : Type 0}
    → (Json
        → List Json
        → Option Json
        → State W
        → Option (Result PreflightError (Unit {0}) × State W))
    → Result PreflightError (Json × List Json × Round) × State W
    → Option (Result PreflightError (Unit {0}) × State W)
after_prepared loop (err e, t) = some (err e, t)
after_prepared loop (ok (workflow_id, before, inspected), t) = some (ok tt, t)
after_prepared loop (ok (workflow_id, before, waiting selected), t) =
    loop workflow_id before selected t

module _ {W : Type 0} (g : Outside W) (c : Candidate) where
  unfoldable pub watch : Json → Json → Act (State W) PreflightError Round
  unfolding api check_selected inspect
  watch workflow_id id = do
    state ← rethrow is_caught (failed_polling id) (api g (run id))
    done ← lift (check_selected id state c.sha)
    if done then (inspect g c workflow_id id >> returns inspected) else returns (waiting (some id))

  -- One round of the loop.
  unfoldable pub round : Json → List Json → Option Json → Act (State W) PreflightError Round
  unfolding ancestry candidates check_observed_runs watch exact
  round workflow_id before selected = do
    ancestry g c
    rows ← candidates g c workflow_id
    now_selected ←
        lift (check_observed_runs before c.sha selected (select (λ row. exact row c.sha) rows))
    elim now_selected [ none ↦ returns (waiting none) | some id ↦ watch workflow_id id ]

  abbrev pub slept : ℕ → State W → State W
  slept poll_seconds s = record { dispatches = s.dispatches; world = g.sleep poll_seconds s.world }

  -- The loop until the deadline, on fuel; none where the fuel runs out.
  unfoldable pub poll :
      ℕ
      → ℕ
      → ℕ
      → Json
      → List Json
      → Option Json
      → State W
      → Option (Result PreflightError (Unit {0}) × State W)
  unfolding round
  poll zero deadline poll_seconds workflow_id before selected s = none
  poll (suc fuel) deadline poll_seconds workflow_id before selected s =
      if ltb (g.monotonic s.world) deadline
      then after_round
          (λ next t. poll fuel deadline poll_seconds workflow_id before next (slept poll_seconds t))
          (round workflow_id before selected s)
      else some (err (timed_out selected), s)

  -- The body of the `try` for one completed run: whether its evidence is there and was inspected.
  unfoldable pub verify_completed : Json → Json → Act (State W) PreflightError Bool
  unfolding evidence_available inspect
  verify_completed workflow_id id = do
    there ← evidence_available g c workflow_id id
    if there then (inspect g c workflow_id id >> returns true) else returns false

  unfoldable pub reuse : Json → Json → Act (State W) PreflightError Bool
  unfolding verify_completed
  reuse workflow_id id = rethrow is_caught (invalid_completed id) (verify_completed workflow_id id)

  -- How many of the completed runs have been verified.
  unfoldable pub reuse_loop : Json → List (Dict Json) → Act (State W) PreflightError ℕ
  unfolding reuse item
  reuse_loop workflow_id [] = returns 0
  reuse_loop workflow_id (row ∷ rows) = do
    id ← lift (item row "id")
    verified ← reuse workflow_id id
    count ← reuse_loop workflow_id rows
    returns (if verified then suc count else count)

  -- Dispatch, and look for the new run.
  unfoldable pub renew : Json → List Json → Act (State W) PreflightError (Option Json)
  unfolding dispatch candidates newly_found sole_id
  renew workflow_id before = do
    dispatch g
    rows ← candidates g c workflow_id
    lift (find_selected (newly_found before c.sha rows))

  -- With no run verified, a new one.
  unfoldable pub unless_reused : Json → List Json → ℕ → Act (State W) PreflightError Round
  unfolding renew
  unless_reused workflow_id before zero =
      renew workflow_id before >>= λ selected. returns (waiting selected)
  unless_reused workflow_id before (suc n) = returns inspected

  -- What is known before the loop: the runs were reused, or a run is waited for.
  unfoldable pub settle : Json → List Json → List (Dict Json) → Act (State W) PreflightError Round
  unfolding selected_id reuse_loop unless_reused
  settle workflow_id before rows = elim (active rows) [
    | row ∷ more ↦ lift (selected_id row) >>= λ selected. returns (waiting selected)
    | [] ↦ reuse_loop workflow_id (completed rows) >>= unless_reused workflow_id before
  ]

  -- `verify_live` up to its loop: the workflow, the ids known before, and the choice.
  unfoldable pub prepare : Bool → Act (State W) PreflightError (Json × List Json × Round)
  unfolding ancestry workflow candidates check_existing known_ids settle item exact
  prepare has_token = do
    lift (require has_token missing_token)
    ancestry g c
    wf ← workflow g c
    workflow_id ← lift (item wf "id")
    rows ← candidates g c workflow_id
    lift (check_existing (select (λ row. exact row c.sha) rows))
    choice ← settle workflow_id (known_ids rows) (select (λ row. exact row c.sha) rows)
    returns (workflow_id, known_ids rows, choice)

  unfoldable pub verify_live :
      ℕ → Bool → ℕ → ℕ → State W → Option (Result PreflightError (Unit {0}) × State W)
  unfolding prepare poll
  verify_live fuel has_token timeout_seconds poll_seconds s =
      after_prepared
        (λ workflow_id before selected t.
          poll fuel (g.monotonic t.world + timeout_seconds) poll_seconds workflow_id before selected
            t)
        (prepare has_token s)
