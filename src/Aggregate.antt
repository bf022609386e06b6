-- ===== src/Aggregate.antt =====
-- .github/scripts/aggregate_verdict.py: the verdict over the shard results of one CI stage.
pub mod Load
pub mod Loops
pub mod Groups
pub mod Exact
pub mod Main
use oxide_batch_workloads.Base.{
  ℕ, String, Bool, true, false, not, ◌&&◌, ◌||◌, ◌==◌, Option, none, some, List, [], ◌∷◌, ◌++◌, map,
  ltb, length, is_empty, contains, sorted, if◌then◌else◌,
}
use oxide_batch_workloads.Base.Dict.{Dict, lookup, insert, keys, has_key}
use oxide_batch_workloads.Base.Json.{Json, null, get, truthy, as_dict}

abbrev pub valid_statuses : List String
valid_statuses = "success" ∷ "failure" ∷ []

abbrev pub valid_outcomes : List String
valid_outcomes = "validated" ∷ "not-applicable" ∷ []

pub record ExpectedShard : Type 0 where
  pub name : String
  pub expected_outcome : String

pub record ShardResult : Type 0 where
  pub workload : String
  pub stage : String
  pub status : String
  pub outcome : String
  pub source : String

-- A result file that cannot be used, by its name.
pub data ParseError : Type 0 where
  unreadable root_not_object invalid_status : String → ParseError
  missing_keys : String → List String → ParseError

-- The messages, with the values that they print.
pub data Reason : Type 0 where
  discovery_failed zero_workloads fan_out_failed : Reason
  duplicate_expected : String → Reason
  malformed : ParseError → Reason
  duplicate_results unexpected_extra : String → List String → Reason
  missing_cancelled missing_skipped missing_no_result : String → Reason
  missing_conclusion : String → String → Reason
  shard_failed : String → String → Reason
  outcome_mismatch : String → String → String → String → Reason

pub record Verdict : Type 0 where
  pub ok : Bool
  pub reasons : List Reason

unfoldable pub fail : Verdict → Reason → Verdict
fail v r = record { ok = false; reasons = v.reasons ++ r ∷ [] }

-- `bool((msrv or {}).get("declared"))`; `none` is the `AttributeError` of a truthy `msrv` that
-- is no dict.
unfoldable pub is_declared : Json → Option Bool
unfolding get
is_declared msrv =
    if truthy msrv
    then elim (as_dict msrv) [ none ↦ none | some d ↦ some (truthy (get d "declared")) ]
    else some false

unfoldable pub expected_outcome_for : String → Json → Option String
unfolding is_declared
expected_outcome_for stage msrv =
    if stage == "ci" || stage == "supply-chain" then some "validated" else elim (is_declared msrv) [
      | none ↦ none
      | some declared ↦ some (if declared then "validated" else "not-applicable")
    ]

-- A `for` loop whose body only adds to the verdict.
unfoldable pub for_each {ℓ} : {A : Type ℓ} → List A → (A → Verdict → Verdict) → Verdict → Verdict
for_each [] body v = v
for_each (a ∷ as') body v = for_each as' body (body a v)

-- The loop that fills `expected_by_name`.
unfoldable pub index_expected :
    List ExpectedShard → Dict ExpectedShard → Verdict → Dict ExpectedShard × Verdict
index_expected [] d v = (d, v)
index_expected (e ∷ es) d v =
    index_expected es (insert e.name e d)
      (if has_key d e.name then fail v (duplicate_expected e.name) else v)

abbrev pub Grouped : Type 0
Grouped = Dict (List ShardResult)

-- `by_workload.get(w, [])`
unfoldable pub entries_of : Grouped → String → List ShardResult
unfolding lookup
entries_of d w = elim (lookup w d) [ none ↦ [] | some es ↦ es ]

-- The loop that fills `by_workload`.
unfoldable pub group_results : List ShardResult → Grouped → Grouped
unfolding entries_of insert
group_results [] d = d
group_results (r ∷ rs) d =
    group_results rs (insert r.workload (entries_of d r.workload ++ r ∷ []) d)

abbrev pub sources : List ShardResult → List String
sources es = map (λ (r : ShardResult). r.source) es

-- One round of the loop over `sorted(by_workload.items())`.
unfoldable pub check_observed : Dict ExpectedShard → Grouped → String → Verdict → Verdict
unfolding fail entries_of
check_observed expected grouped w v =
    let es = entries_of grouped w in
    let v' : Verdict = if ltb 1 (length es) then fail v (duplicate_results w (sources es)) else v in
    if has_key expected w then v' else fail v' (unexpected_extra w (sources es))

unfoldable pub missing_reason : String → Option String → Reason
missing_reason w none = missing_no_result w
missing_reason w (some status) =
    if status == "cancelled"
    then missing_cancelled w
    else if status == "skipped"
    then missing_skipped w
    else missing_conclusion w status

-- `expected_by_name[w].expected_outcome`, asked for keys `w` only.
unfoldable pub required_outcome : Dict ExpectedShard → String → String
unfolding lookup
required_outcome d w = elim (lookup w d) [ none ↦ "" | some e ↦ e.expected_outcome ]

-- The first entry of a workload against the outcome that its policy requires.
unfoldable pub check_entry : String → ShardResult → String → Verdict → Verdict
unfolding fail
check_entry w entry required v =
    if not (entry.status == "success")
    then fail v (shard_failed w entry.stage)
    else if not (entry.outcome == required)
    then fail v (outcome_mismatch w entry.stage entry.outcome required)
    else v

abbrev pub check_first :
    Dict ExpectedShard → Dict String → String → List ShardResult → Verdict → Verdict
check_first expected job_statuses w [] v = fail v (missing_reason w (lookup w job_statuses))
check_first expected job_statuses w (entry ∷ more) v =
    check_entry w entry (required_outcome expected w) v

-- One round of the loop over `sorted(expected_set)`.
unfoldable pub check_expected :
    Dict ExpectedShard → Grouped → Dict String → String → Verdict → Verdict
unfolding check_entry entries_of required_outcome missing_reason
check_expected expected grouped job_statuses w v =
    check_first expected job_statuses w (entries_of grouped w) v

pub record Inputs : Type 0 where
  pub expected : List ExpectedShard
  pub results : List ShardResult
  pub discovery_ok : Bool
  pub upstream_job_ok : Bool
  pub parse_errors : List ParseError
  pub job_statuses : Dict String

-- The part of `compute_verdict` above the first loop.
unfoldable pub preliminary : Inputs → Verdict
unfolding fail
preliminary i =
    let v : Verdict = record { ok = true; reasons = [] } in
    let v' : Verdict = if i.discovery_ok then v else fail v discovery_failed in
    if is_empty i.expected then fail v' zero_workloads else v'

-- The part of `compute_verdict` below the loop that fills `expected_by_name`.
unfoldable pub check_all : Dict ExpectedShard → Inputs → Verdict → Verdict
unfolding fail for_each group_results check_observed check_expected sorted
check_all by_name i v =
    let v1 : Verdict = for_each i.parse_errors (λ e u. fail u (malformed e)) v in
    let grouped : Grouped = group_results i.results [] in
    let v2 : Verdict = for_each (sorted (keys grouped)) (check_observed by_name grouped) v1 in
    let v3 : Verdict =
      for_each (sorted (keys by_name)) (check_expected by_name grouped i.job_statuses) v2 in
    if i.upstream_job_ok then v3 else fail v3 fan_out_failed

unfoldable pub compute_verdict : Inputs → Verdict
unfolding preliminary index_expected check_all
compute_verdict i =
    let (by_name, v) = index_expected i.expected [] (preliminary i) in check_all by_name i v

-- The exit status of `main`.
unfoldable pub exit_status : Verdict → ℕ
exit_status v = if v.ok then 0 else 1
