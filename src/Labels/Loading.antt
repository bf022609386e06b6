-- ===== src/Labels/Loading.antt =====
-- `load_policy`, on a taxonomy and a registry that the validators have accepted: the names of the
-- labels, the structural types, the singular groups, and the name and path of each entry.
use oxide_batch_workloads.Base.{
  String, ◌<>◌, not, ◌&&◌, List, [], ◌∷◌, ◌++◌, map, is_empty, all, contains, select, sorted,
  starts_with,
}
use oxide_batch_workloads.Base.Text.{rstrip_char}
use oxide_batch_workloads.Base.Result.{Result, ok, err, ◌>>◌, reject_if}
use oxide_batch_workloads.Labels.{Policy}

pub data PolicyError : Type 0 where
  no_single_group : PolicyError
  missing_labels : List String → PolicyError

-- The labels of TYPE_RULES and of AREA_PREFIX_RULES.
abbrev pub rule_labels : List String
rule_labels =
    "type:epic" ∷ "type:track" ∷ "type:campaign" ∷ "type:bug" ∷ "type:security" ∷ "type:docs"
    ∷ "type:research" ∷ "type:task" ∷ "area:ci" ∷ "area:governance" ∷ "area:evidence"
    ∷ "area:security" ∷ "area:docs" ∷ []

abbrev pub referenced : List String
referenced =
    rule_labels
    ++ ("area:benchmark" ∷ "area:interop" ∷ "area:postgres" ∷ "area:workload" ∷ "area:evidence"
        ∷ "area:ci" ∷ "area:governance" ∷ "area:docs" ∷ "area:security" ∷ [])

unfoldable pub matching_groups : List String → List String → List String
matching_groups structural singular =
    select (λ prefix. not (is_empty structural) && all (λ name. starts_with name prefix) structural)
      singular

abbrev pub entry_prefix : String × String → String × String
entry_prefix (name, path) = (name, rstrip_char b'/' path <> "/")

-- The policy from the only group on.
unfoldable pub policy_for :
    List String → List String → List (String × String) → List String → Result PolicyError Policy
unfolding sorted rstrip_char
policy_for known structural entries (type_prefix ∷ []) =
    let missing = select (λ l. not (contains known l)) referenced in
    reject_if (not (is_empty missing)) (missing_labels (sorted missing))
    >> ok (record {
      known = known;
      structural = structural;
      type_prefix = type_prefix;
      workload_paths = map entry_prefix entries;
    })
policy_for known structural entries [] = err no_single_group
policy_for known structural entries (p ∷ q ∷ ps) = err no_single_group

unfoldable pub load_policy :
    List String → List String → List String → List (String × String) → Result PolicyError Policy
unfolding matching_groups policy_for
load_policy known structural singular entries =
    policy_for known structural entries (matching_groups structural singular)
