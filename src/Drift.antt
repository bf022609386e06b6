-- ===== src/Drift.antt =====
-- .github/scripts/run-hardening-drift-audit.py: the live settings of the repository against its policy.
-- Here the readback of the settings; Drift.Audit has the checks and the classification.
pub mod Audit
pub mod Settings
pub mod RepositoryFields
pub mod Met
pub mod Clean
use oxide_batch_workloads.Base.{
  ℕ, String, Bool, true, false, not, ◌&&◌, ◌||◌, ◌==◌, Option, none, some, List, [], ◌∷◌, map, all,
  leb, length, sorted, is_some, if◌then◌else◌,
}
use oxide_batch_workloads.Base.Dict.{Dict, lookup, insert, has_key}
use oxide_batch_workloads.Base.Json.{
  Json, Items, Fields, items, array, get, as_dict, as_list, as_str, hashable, truthy,
}
use oxide_batch_workloads.Base.SameJson.{same_json}
use oxide_batch_workloads.Base.Result.{Result, ok, err, ◌>>=◌, ◌>>◌, reject_if, require}

-- The failures of the readback, and the errors of Python itself.
pub data DriftError : Type 0 where
  get_failed omitted unimplemented : String → DriftError
  malformed_sbom malformed_reporting automation_failed : DriftError
  attribute_error type_error key_error : DriftError

-- An ApiFailure is caught; the errors of Python are not.
abbrev pub is_api_failure : DriftError → Bool
is_api_failure attribute_error = false
is_api_failure type_error = false
is_api_failure key_error = false
is_api_failure e = true

-- `for x in value`: a dict and a text have no dicts in them.
abbrev iterated : Json → Result DriftError (List Json)
iterated (Json.arr js) = ok (items js)
iterated (Json.obj fs) = ok []
iterated (Json.str s) = ok []
iterated j = err type_error

-- `d.get(k, [])`, of which the dicts are used.
unfoldable pub entries_at : Dict Json → String → Result DriftError (List Json)
unfolding lookup
entries_at d k = elim (lookup k d) [ none ↦ ok [] | some j ↦ iterated j ]

-- `d.get(k, {})`, of which a member is read next.
unfoldable pub dict_in : Dict Json → String → Result DriftError (Dict Json)
unfolding lookup
dict_in d k = elim (lookup k d) [
  | none ↦ ok []
  | some j ↦ elim (as_dict j) [ none ↦ err attribute_error | some e ↦ ok e ]
]

-- The rules by their type, of which only texts are asked for; a later rule replaces an earlier one.
unfoldable pub rule_loop : Dict (Dict Json) → List Json → Result DriftError (Dict (Dict Json))
unfolding get insert
rule_loop rules [] = ok rules
rule_loop rules (j ∷ js) = elim (as_dict j) [
  | none ↦ rule_loop rules js
  | some rule ↦ elim (as_str (get rule "type")) [
    | none ↦ require (hashable (get rule "type")) type_error >> rule_loop rules js
    | some kind ↦ rule_loop (insert kind rule rules) js
  ]
]

unfoldable pub rules_by_type : Dict Json → Result DriftError (Dict (Dict Json))
unfolding entries_at rule_loop
rules_by_type rule_set = entries_at rule_set "rules" >>= rule_loop []

-- `rules.get(kind, {}).get("parameters", {})`
unfoldable pub parameters_of : Dict (Dict Json) → String → Result DriftError (Dict Json)
unfolding lookup dict_in
parameters_of rules kind = elim (lookup kind rules) [
  | none ↦ ok []
  | some rule ↦ dict_in rule "parameters"
]

abbrev pull_request_parameter : Dict (Dict Json) → String → Result DriftError Json
pull_request_parameter rules name = parameters_of rules "pull_request" >>= λ d. ok (get d name)

-- The texts of a list, if it holds nothing else.
unfoldable pub texts_of : List Json → Option (List String)
texts_of [] = some []
texts_of (j ∷ js) =
    let rest = texts_of js in
    elim (as_str j) [ none ↦ none | some s ↦ elim rest [ none ↦ none | some ts ↦ some (s ∷ ts) ] ]

-- `sorted(…)`: texts are sorted, and anything else is taken not to be comparable.
unfoldable pub sorted_values : List Json → Result DriftError (List Json)
unfolding texts_of sorted
sorted_values js = elim (texts_of js) [
  | none ↦ if leb (length js) 1 then ok js else err type_error
  | some ts ↦ ok (map Json.str (sorted ts))
]

-- `entry.get("context")` of the entries that are dicts.
unfoldable pub contexts_of : List Json → List Json
unfolding get
contexts_of [] = []
contexts_of (j ∷ js) =
    let rest = contexts_of js in
    elim (as_dict j) [ none ↦ rest | some entry ↦ get entry "context" ∷ rest ]

unfoldable pub status_contexts : Dict (Dict Json) → Result DriftError Json
unfolding parameters_of entries_at contexts_of sorted_values
status_contexts rules = do
  d ← parameters_of rules "required_status_checks"
  entries ← entries_at d "required_status_checks"
  contexts ← sorted_values (contexts_of entries)
  ok (Json.arr (array contexts))

unfoldable pub targets_default_branch : Dict Json → Result DriftError Json
unfolding dict_in get same_json
targets_default_branch rule_set = do
  conditions ← dict_in rule_set "conditions"
  ref_name ← dict_in conditions "ref_name"
  ok (
      Json.bool
        (same_json (get ref_name "include") (Json.arr (array (Json.str "~DEFAULT_BRANCH" ∷ [])))))

abbrev has_rule : Dict (Dict Json) → String → Result DriftError Json
has_rule rules kind = ok (Json.bool (has_key rules kind))

-- `ruleset.get("bypass_actors", [])`
abbrev bypass_actors : Dict Json → Json
bypass_actors rule_set = elim (lookup "bypass_actors" rule_set) [
  | none ↦ Json.arr (array [])
  | some j ↦ j
]

-- `actual_ruleset_value` once the rules are known.
unfoldable pub ruleset_value : String → Dict Json → Dict (Dict Json) → Result DriftError Json
unfolding get targets_default_branch parameters_of status_contexts lookup
ruleset_value id rule_set rules =
    if id == "ruleset.enforcement"
    then ok (get rule_set "enforcement")
    else if id == "ruleset.target_default_branch"
    then targets_default_branch rule_set
    else if id == "ruleset.deletion_protection"
    then has_rule rules "deletion"
    else if id == "ruleset.non_fast_forward_protection"
    then has_rule rules "non_fast_forward"
    else if id == "ruleset.required_linear_history"
    then has_rule rules "required_linear_history"
    else if id == "ruleset.pull_request_required"
    then has_rule rules "pull_request"
    else if id == "ruleset.allowed_merge_methods"
    then pull_request_parameter rules "allowed_merge_methods"
    else if id == "ruleset.review_thread_resolution"
    then pull_request_parameter rules "required_review_thread_resolution"
    else if id == "ruleset.required_approving_review_count"
    then pull_request_parameter rules "required_approving_review_count"
    else if id == "ruleset.require_extra_approval_for_unattributed_changes"
    then pull_request_parameter rules "require_extra_approval_for_unattributed_changes"
    else if id == "ruleset.strict_required_status_checks"
    then (parameters_of rules "required_status_checks" >>= λ d.
        ok (get d "strict_required_status_checks_policy"))
    else if id == "ruleset.required_status_contexts"
    then status_contexts rules
    else if id == "ruleset.bypass_actors"
    then ok (bypass_actors rule_set)
    else if id == "security.signed_commits"
    then has_rule rules "required_signatures"
    else err key_error

unfoldable pub actual_ruleset_value : String → Json → Result DriftError Json
unfolding rules_by_type ruleset_value
actual_ruleset_value id value = elim (as_dict value) [
  | none ↦ err attribute_error
  | some rule_set ↦ rules_by_type rule_set >>= ruleset_value id rule_set
]

-- The answers of the API below the repository, each of which may fail.
pub record Live : Type 0 where
  pub repository : Result DriftError Json
  pub ruleset_answer : Result DriftError Json
  pub sbom : Result DriftError Json
  pub reporting : Result DriftError Json

-- The fields of the repository that are controls.
abbrev repository_fields : Dict String
repository_fields =
    ("repository.visibility", "visibility")
    ∷ ("repository.default_branch", "default_branch")
    ∷ ("repository.allow_squash_merge", "allow_squash_merge")
    ∷ ("repository.allow_merge_commit", "allow_merge_commit")
    ∷ ("repository.allow_rebase_merge", "allow_rebase_merge")
    ∷ ("repository.delete_branch_on_merge", "delete_branch_on_merge")
    ∷ ("repository.allow_update_branch", "allow_update_branch")
    ∷ ("repository.squash_merge_commit_title", "squash_merge_commit_title")
    ∷ ("repository.squash_merge_commit_message", "squash_merge_commit_message")
    ∷ ("repository.web_commit_signoff_required", "web_commit_signoff_required")
    ∷ []

unfoldable pub repository_field : String → Json → String → Result DriftError Json
unfolding lookup
repository_field id repository key = elim (as_dict repository) [
  | none ↦ err (omitted id)
  | some d ↦ elim (lookup key d) [ none ↦ err (omitted id) | some j ↦ ok j ]
]

unfoldable pub check_sbom : Json → Result DriftError Json
unfolding get
check_sbom value = elim (as_dict value) [
  | none ↦ err malformed_sbom
  | some d ↦ if is_some (as_dict (get d "sbom")) then ok (Json.bool true) else err malformed_sbom
]

unfoldable pub check_reporting : Json → Result DriftError Json
unfolding lookup
check_reporting value = elim (as_dict value) [
  | none ↦ err malformed_reporting
  | some d ↦ elim (lookup "enabled" d) [ none ↦ err malformed_reporting | some j ↦ ok j ]
]

unfoldable pub actual_repository_value : Live → String → Json → Result DriftError Json
unfolding lookup repository_field check_sbom check_reporting
actual_repository_value live id repository = elim (lookup id repository_fields) [
  | some key ↦ repository_field id repository key
  | none ↦
      if id == "security.dependency_graph"
      then live.sbom >>= check_sbom
      else if id == "security.private_vulnerability_reporting"
      then live.reporting >>= check_reporting
      else err key_error
]

-- `sorted(j)` of a list; the policy has a list there, and so has the readback.
unfoldable pub listed : Json → Result DriftError (List Json)
unfolding sorted_values
listed j = elim (as_list j) [ none ↦ err type_error | some js ↦ sorted_values js ]

-- `compare_expected`; `actual or []`.
unfoldable pub compare_expected : String → Json → Json → Result DriftError Bool
unfolding listed same_json
compare_expected id expected actual =
    if id == "ruleset.required_status_contexts"
    then (do
      wanted ← listed expected
      found ← listed (if truthy actual then actual else Json.arr (array []))
      ok (same_json (Json.arr (array wanted)) (Json.arr (array found))))
    else ok (same_json actual expected)
