-- ===== src/Tests/Drift.antt =====
-- A repository whose settings, label and open item are as the policy wants them.
use oxide_batch_workloads.Base.{
  ◌≡◌, refl, String, true, ◌==◌, none, some, List, [], ◌∷◌, sorted, if◌then◌else◌,
}
use oxide_batch_workloads.Base.Dict.{Dict, lookup, insert}
use oxide_batch_workloads.Base.Json.{Json, obj, arr, object, array, get, as_str}
use oxide_batch_workloads.Base.SameJson.{same_json, same_items, same_fields, find_field}
use oxide_batch_workloads.Base.Result.{ok}
use oxide_batch_workloads.Drift.{
  entries_at, dict_in, rule_loop, rules_by_type, parameters_of, texts_of, sorted_values,
  contexts_of, status_contexts, ruleset_value, actual_ruleset_value, repository_field,
  actual_repository_value, listed, compare_expected,
}
use oxide_batch_workloads.Drift.Audit.{
  failed_checks, judge_supply, check_supply, run_canonical_checks, Control, readback_of,
  check_control, control_loop, run_live_policy_checks, Label, same_shape, check_label, label_loop,
  item_loop, Readback, classify, audit_of, after_items, after_labels, after_policy, finish,
  run_audit, main,
}
use oxide_batch_workloads.Drift.Clean.{IsClean, main-IsClean}

abbrev dict : Dict Json → Json
dict d = obj (object d)

abbrev list : List Json → Json
list js = arr (array js)

abbrev context : String → Json
context name = dict (("context", Json.str name) ∷ [])

abbrev checks_rule : Json
checks_rule = dict (
    ("type", Json.str "required_status_checks")
    ∷ (
      "parameters",
      dict (("required_status_checks", list (context "verdict" ∷ context "msrv" ∷ [])) ∷ []),
    )
    ∷ [])

abbrev main_label : Dict Json
main_label =
    ("name", Json.str "help") ∷ ("color", Json.str "00ffaa") ∷ ("description", Json.null) ∷ []

abbrev readback : Readback
readback = record {
  exits = λ control. 0;
  supply = record {
    returncode = 0;
    result = some (dict (("classification", Json.str "clean") ∷ []));
  };
  live = record {
    repository = ok (dict (("visibility", Json.str "public") ∷ []));
    ruleset_answer =
        ok (dict (("enforcement", Json.str "active") ∷ ("rules", list (checks_rule ∷ [])) ∷ []));
    sbom = ok Json.null;
    reporting = ok Json.null;
  };
  shapes = record {
    live_color = λ j. elim (as_str j) [ none ↦ "" | some s ↦ s ];
    lower = λ s. if s == "00FFAA" then "00ffaa" else s;
  };
  labels = ok (("help", main_label) ∷ []);
  items = ok (record { current = "help" ∷ []; desired = "help" ∷ [] } ∷ []);
}

abbrev control : String → String → Json → Control
control id source expected = record {
  id = id;
  readback = source;
  classification = Json.str "required";
  expected = expected;
}

abbrev controls : List Control
controls =
    control "repository.visibility" "repository-api" (Json.str "public")
    ∷ control "ruleset.required_status_contexts" "ruleset-api"
        (list (Json.str "msrv" ∷ Json.str "verdict" ∷ []))
    ∷ control "security.secret_scanning" "manual-readback" (Json.bool true)
    ∷ []

abbrev labels : List Label
labels = record { name = "help"; color = "00FFAA"; description = "" } ∷ []

audited : main true readback controls labels ≡ 0
unfolding main run_audit run_canonical_checks check_supply judge_supply failed_checks
    run_live_policy_checks control_loop check_control readback_of actual_repository_value
    repository_field actual_ruleset_value rules_by_type entries_at rule_loop ruleset_value
    status_contexts parameters_of dict_in contexts_of sorted_values texts_of sorted listed
    compare_expected same_json same_items same_fields find_field get lookup insert after_policy
    after_labels after_items label_loop check_label same_shape item_loop finish audit_of classify
audited = refl

main-IsClean_example : (true ≡ true) × IsClean readback controls labels
main-IsClean_example = main-IsClean true readback controls labels audited
