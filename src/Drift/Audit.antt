-- ===== src/Drift/Audit.antt =====
-- `run_canonical_checks`, `run_live_policy_checks`, `run_live_label_checks`, `run_audit` and `main`.
use oxide_batch_workloads.Base.{
  ℕ, String, Bool, not, ◌&&◌, ◌||◌, ◌==◌, Option, none, some, List, [], ◌∷◌, ◌++◌, length, nat_eq,
  is_empty, select, if◌then◌else◌,
}
use oxide_batch_workloads.Base.Dict.{Dict, lookup}
use oxide_batch_workloads.Base.Json.{Json, get, as_dict, truthy}
use oxide_batch_workloads.Base.Result.{Result, ok, err, ◌>>=◌}
use oxide_batch_workloads.Codeql.Coverage.{equals_text}
use oxide_batch_workloads.Evidence.Validated.{same_set}
use oxide_batch_workloads.Drift.{
  DriftError, attribute_error, key_error, unimplemented, is_api_failure, Live, actual_ruleset_value,
  actual_repository_value, compare_expected,
}

-- The details of a finding, without their wording.
pub data Detail : Type 0 where
  exited : ℕ → Detail
  reported : Json → Detail
  unreadable : Detail
  unexpected : Json → Detail
  differs : Json → Json → Detail
  missing_label drifted_label : String → Detail
  unreconciled : List String → List String → Detail
  raised : DriftError → Detail

pub record Finding : Type 0 where
  pub control : String
  pub details : Detail

-- How one of the canonical checks exits, by its control.
abbrev pub canonical_checks : List String
canonical_checks =
    "workload-registry" ∷ "oxidebatch-provenance" ∷ "evidence-contract" ∷ "label-taxonomy"
    ∷ "workflow-security" ∷ "workflow-scanners" ∷ []

unfoldable pub failed_checks : (String → ℕ) → List String → List Finding
failed_checks exits [] = []
failed_checks exits (control ∷ cs) =
    let rest = failed_checks exits cs in
    if nat_eq (exits control) 0
    then rest
    else record { control = control; details = exited (exits control) } ∷ rest

-- The supply-chain audit: its exit status, and its result if that can be read.
pub record Supply : Type 0 where
  pub returncode : ℕ
  pub result : Option Json

abbrev pub supply_finding : Detail → List Finding
supply_finding details = record { control = "supply-chain"; details = details } ∷ []

-- The findings of the policy, and the failures of the infrastructure.
unfoldable pub judge_supply : Dict Json → ℕ → List Finding × List Finding
unfolding get
judge_supply d returncode =
    if equals_text (get d "classification") "policy-finding"
    then (supply_finding (reported (get d "details")), [])
    else if equals_text (get d "classification") "infrastructure-failure"
    then ([], supply_finding (reported (get d "details")))
    else if not (equals_text (get d "classification") "clean") || not (nat_eq returncode 0)
    then ([], supply_finding (unexpected (get d "classification")))
    else ([], [])

unfoldable pub check_supply : Supply → Result DriftError (List Finding × List Finding)
unfolding judge_supply
check_supply s = elim s.result [
  | none ↦ ok ([], supply_finding unreadable)
  | some j ↦ elim (as_dict j) [
    | none ↦ err attribute_error
    | some d ↦ ok (judge_supply d s.returncode)
  ]
]

unfoldable pub run_canonical_checks :
    (String → ℕ) → Supply → Result DriftError (List Finding × List Finding)
unfolding failed_checks check_supply
run_canonical_checks exits supply =
    check_supply supply >>= λ found. ok (failed_checks exits canonical_checks ++ found.0, found.1)

-- A control of the policy, as the file has it.
pub record Control : Type 0 where
  pub id : String
  pub readback : String
  pub classification : Json
  pub expected : Json

abbrev pub is_manual : Control → Bool
is_manual c = c.readback == "manual-readback"

-- A KeyError of the readback is raised again as an ApiFailure.
abbrev pub implemented : String → Result DriftError Json → Result DriftError Json
implemented id (err key_error) = err (unimplemented id)
implemented id r = r

unfoldable pub readback_of : Live → Json → Json → Control → Result DriftError Json
unfolding actual_repository_value actual_ruleset_value
readback_of live repository rule_set c = implemented c.id (
    if c.readback == "repository-api"
    then actual_repository_value live c.id repository
    else if c.readback == "ruleset-api"
    then actual_ruleset_value c.id rule_set
    else err key_error)

-- The findings of one automated control.
unfoldable pub check_control : Live → Json → Json → Control → Result DriftError (List Finding)
unfolding readback_of compare_expected
check_control live repository rule_set c = do
  actual ← readback_of live repository rule_set c
  same ← compare_expected c.id c.expected actual
  ok (if same then [] else record { control = c.id; details = differs c.expected actual } ∷ [])

unfoldable pub control_loop :
    Live → Json → Json → List Control → Result DriftError (List Finding × List Control)
unfolding check_control
control_loop live repository rule_set [] = ok ([], [])
control_loop live repository rule_set (c ∷ cs) =
    if is_manual c
    then (control_loop live repository rule_set cs >>= λ rest. ok (rest.0, c ∷ rest.1))
    else (check_control live repository rule_set c >>= λ found.
        control_loop live repository rule_set cs >>= λ rest. ok (found ++ rest.0, rest.1))

unfoldable pub run_live_policy_checks :
    Live → List Control → Result DriftError (List Finding × List Control)
unfolding control_loop
run_live_policy_checks live controls = live.repository >>= λ repository.
    live.ruleset_answer >>= λ rule_set. control_loop live repository rule_set controls

-- A canonical label, as .github/labels.json has it.
pub record Label : Type 0 where
  pub name : String
  pub color : String
  pub description : String

-- `str(actual.get("color", "")).lower()`, `wanted["color"].lower()`, and
-- `actual.get("description") or ""`, by functions of the values.
pub record Shapes : Type 0 where
  pub live_color : Json → String
  pub lower : String → String

abbrev same_description : Json → String → Bool
same_description j s = if truthy j then equals_text j s else s == ""

abbrev color_of : Dict Json → Json
color_of actual = elim (lookup "color" actual) [ none ↦ Json.str "" | some j ↦ j ]

unfoldable pub same_shape : Shapes → Label → Dict Json → Bool
unfolding get lookup
same_shape shapes wanted actual =
    equals_text (get actual "name") wanted.name
    && (shapes.live_color (color_of actual) == shapes.lower wanted.color
        && same_description (get actual "description") wanted.description)

-- The findings of one canonical label among the live ones.
unfoldable pub check_label : Shapes → Dict (Dict Json) → Label → List Finding
unfolding same_shape lookup
check_label shapes live wanted = elim (lookup wanted.name live) [
  | none ↦ record { control = "managed-labels"; details = missing_label wanted.name } ∷ []
  | some actual ↦
      if same_shape shapes wanted actual
      then []
      else record { control = "managed-labels"; details = drifted_label wanted.name } ∷ []
]

unfoldable pub label_loop : Shapes → Dict (Dict Json) → List Label → List Finding
unfolding check_label
label_loop shapes live [] = []
label_loop shapes live (l ∷ ls) = check_label shapes live l ++ label_loop shapes live ls

-- The labels of an open item, and those that the reconciliation wants.
pub record Item : Type 0 where
  pub current : List String
  pub desired : List String

abbrev pub is_reconciled : Item → Bool
is_reconciled i = nat_eq (length i.current) (length i.desired) && same_set i.current i.desired

unfoldable pub item_loop : List Item → List Finding
item_loop [] = []
item_loop (i ∷ is) =
    let rest = item_loop is in
    if is_reconciled i
    then rest
    else record { control = "label-automation"; details = unreconciled i.current i.desired } ∷ rest

-- What the audit reads: the exits of the checks, the supply-chain audit, the live settings, the
-- labels by their names, and the open items, of which the last two may fail.
pub record Readback : Type 0 where
  pub exits : String → ℕ
  pub supply : Supply
  pub live : Live
  pub shapes : Shapes
  pub labels : Result DriftError (Dict (Dict Json))
  pub items : Result DriftError (List Item)

pub data Classification : Type 0 where
  clean policy_drift infrastructure_failure : Classification

unfoldable pub classify : List Finding → List Finding → Classification
classify policy [] = if is_empty policy then clean else policy_drift
classify policy (f ∷ fs) = infrastructure_failure

pub record Audit : Type 0 where
  pub classification : Classification
  pub policy_findings : List Finding
  pub infrastructure : List Finding
  pub manual : List Control

unfoldable pub audit_of : List Finding → List Finding → List Control → Audit
unfolding classify
audit_of policy infrastructure manual = record {
  classification = classify policy infrastructure;
  policy_findings = policy;
  infrastructure = infrastructure;
  manual = manual;
}

-- What the live checks leave: the findings up to the first error, that error, and the manual controls.
pub record Outcome : Type 0 where
  pub findings : List Finding
  pub failure : Option DriftError
  pub manual : List Control

unfoldable pub after_items : List Control → List Finding → Result DriftError (List Item) → Outcome
unfolding item_loop
after_items manual found (err e) = record { findings = found; failure = some e; manual = manual }
after_items manual found (ok items) = record {
  findings = found ++ item_loop items;
  failure = none;
  manual = manual;
}

unfoldable pub after_labels :
    Readback
    → List Label
    → List Control
    → List Finding
    → Result DriftError (Dict (Dict Json))
    → Outcome
unfolding label_loop after_items
after_labels r labels manual found (err e) = record {
  findings = found;
  failure = some e;
  manual = manual;
}
after_labels r labels manual found (ok live) =
    after_items manual (found ++ label_loop r.shapes live labels) r.items

-- The calls inside the `try` of `run_audit`.
unfoldable pub after_policy :
    Readback → List Label → List Control → Result DriftError (List Finding × List Control) → Outcome
unfolding after_labels
after_policy r labels manual (err e) = record { findings = []; failure = some e; manual = manual }
after_policy r labels manual (ok (found, controls)) = after_labels r labels controls found r.labels

abbrev pub live_failure : DriftError → Finding
live_failure e = record { control = "live-readback"; details = raised e }

unfoldable pub finish : List Finding × List Finding → Outcome → Result DriftError Audit
unfolding audit_of
finish found o = elim o.failure [
  | none ↦ ok (audit_of (found.0 ++ o.findings) (found.1) o.manual)
  | some e ↦
      if is_api_failure e
      then ok (audit_of (found.0 ++ o.findings) (found.1 ++ (live_failure e ∷ [])) o.manual)
      else err e
]

unfoldable pub run_audit : Readback → List Control → List Label → Result DriftError Audit
unfolding run_canonical_checks run_live_policy_checks after_policy finish
run_audit r controls labels = run_canonical_checks r.exits r.supply >>= λ found.
    finish found
      (after_policy r labels (select is_manual controls) (run_live_policy_checks r.live controls))

abbrev pub exit_code_for : Classification → ℕ
exit_code_for clean = 0
exit_code_for policy_drift = 1
exit_code_for infrastructure_failure = 2

-- The exit status of a live run of `main`; an error of Python ends it with 1.
unfoldable pub main : Bool → Readback → List Control → List Label → ℕ
unfolding run_audit
main has_credentials r controls labels =
    if has_credentials
    then (elim (run_audit r controls labels) [
      | err e ↦ 1
      | ok audit ↦ exit_code_for audit.classification
    ])
    else 2
