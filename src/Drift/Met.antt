-- ===== src/Drift/Met.antt =====
-- The controls of the policy against the settings that GitHub reports.
use oxide_batch_workloads.Base.{
  ◌≡◌, sym, ap, ◌∙◌, ◌⊎◌, inl, inr, String, true, false, some, ◌==◌, List, [], ◌∷◌, ◌++◌, All,
  is_empty, is_empty-append, arith, and_left, and_right, Bool-cases, eq_iff, if◌then◌else◌,
}
use oxide_batch_workloads.Base.Dict.{Dict}
use oxide_batch_workloads.Base.Json.{Json, as_dict, array, truthy}
use oxide_batch_workloads.Base.SameJson.{same_json}
use oxide_batch_workloads.Base.Result.{Result, ok, err, >>=-eq-ok, ok_inj}
use oxide_batch_workloads.Drift.{DriftError, key_error, Live, entries_at, listed, compare_expected}
use oxide_batch_workloads.Drift.RepositoryFields.{IsField, actual_repository_value-IsField}
use oxide_batch_workloads.Drift.Settings.{IsSetting, actual_ruleset_value-IsSetting}
use oxide_batch_workloads.Drift.Audit.{
  Finding, Control, is_manual, implemented, readback_of, check_control, control_loop,
}

-- The value is what GitHub reports for the control: a field of the repository, or a setting of the
-- ruleset.
abbrev pub IsReported : Live → Json → Json → Control → Json → Type 0
IsReported live repository rule_set c actual =
    ((c.readback ≡ "repository-api") × IsField live repository c.id actual)
    ⊎ ((c.readback ≡ "ruleset-api")
        × (d : Dict Json) × (rules : List Json) × (as_dict rule_set ≡ some d)
        × (entries_at d "rules" ≡ ok rules)
        × IsSetting d rules c.id actual)

-- The value is the one expected: the required contexts are the same in any order, where a value
-- that is false stands for none, and any other setting is the same value.
abbrev pub Agrees : Control → Json → Type 0
Agrees c actual =
    (((c.id == "ruleset.required_status_contexts") ≡ false) × (same_json actual c.expected ≡ true))
    ⊎ (((c.id == "ruleset.required_status_contexts") ≡ true)
        × (wanted : List Json) × (found : List Json) × (listed c.expected ≡ ok wanted)
        × (listed (if truthy actual then actual else Json.arr (array [])) ≡ ok found)
        × (same_json (Json.arr (array wanted)) (Json.arr (array found)) ≡ true))

-- The control is read by hand, or the value that GitHub reports is the one expected.
abbrev pub IsMet : Live → Json → Json → Control → Type 0
IsMet live repository rule_set c =
    (c.readback ≡ "manual-readback")
    ⊎ ((actual : Json) × IsReported live repository rule_set c actual × Agrees c actual)

implemented-ok :
    (id : String) (r : Result DriftError Json) (actual : Json)
    → implemented id r ≡ ok actual
    → r ≡ ok actual
implemented-ok id (err key_error) actual h = absurd (ground arith)
implemented-ok id r actual h = h

readback_of-IsReported :
    (live : Live) (repository rule_set : Json) (c : Control) (actual : Json)
    → readback_of live repository rule_set c ≡ ok actual
    → IsReported live repository rule_set c actual
unfolding readback_of
readback_of-IsReported live repository rule_set c actual h =
    let read = implemented-ok c.id _ actual h in
    elim (Bool-cases (c.readback == "repository-api")) [
      | inl is_field ↦ inl (
        (eq_iff c.readback "repository-api").0 is_field,
        actual_repository_value-IsField live repository c.id actual (rw is_field at read),
      )
      | inr no_field ↦ elim (Bool-cases (c.readback == "ruleset-api")) [
        | inl is_setting ↦
            let (d, rules, is_object, listed_rules, setting) =
              actual_ruleset_value-IsSetting c.id rule_set actual
                (rw is_setting at (rw no_field at read)) in
            inr (
              (eq_iff c.readback "ruleset-api").0 is_setting,
              d,
              rules,
              is_object,
              listed_rules,
              setting,
            )
        | inr no_setting ↦ absurd (ground (arith, rw no_setting at (rw no_field at read)))
      ]
    ]

compare_expected-Agrees :
    (c : Control) (actual : Json)
    → compare_expected c.id c.expected actual ≡ ok true
    → Agrees c actual
unfolding compare_expected
compare_expected-Agrees c actual h =
    elim (Bool-cases (c.id == "ruleset.required_status_contexts")) [
      | inl contexts ↦
          let (wanted, a, h1) =
            >>=-eq-ok (listed c.expected) _ (rw (contexts, compare_expected) at h) in
          let (found, b, h2) =
            >>=-eq-ok (listed (if truthy actual then actual else Json.arr (array []))) _ h1 in
          inr (contexts, wanted, found, a, b, ok_inj h2)
      | inr other ↦ inl (other, ok_inj (rw (other, compare_expected) at h))
    ]

check_control-IsMet :
    (live : Live) (repository rule_set : Json) (c : Control) (found : List Finding)
    → check_control live repository rule_set c ≡ ok found
    → is_empty found ≡ true
    → IsMet live repository rule_set c
unfolding check_control
check_control-IsMet live repository rule_set c found h empty =
    let (actual, a, h1) = >>=-eq-ok (readback_of live repository rule_set c) _ h in
    let (same, b, h2) = >>=-eq-ok (compare_expected c.id c.expected actual) _ h1 in
    elim (Bool-cases same) [
      | inl agreed ↦ inr (
        actual,
        readback_of-IsReported live repository rule_set c actual a,
        compare_expected-Agrees c actual (b ∙ ap ok agreed),
      )
      | inr other ↦ absurd (ground (arith, ap is_empty (ok_inj (rw other at h2)) ∙ empty))
    ]

pub control_loop-none :
    (live : Live) (repository rule_set : Json) (cs : List Control)
    (out : List Finding × List Control)
    → control_loop live repository rule_set cs ≡ ok out
    → is_empty (out.0) ≡ true
    → All (IsMet live repository rule_set) cs
unfolding control_loop
control_loop-none live repository rule_set [] out h empty = tt
control_loop-none live repository rule_set (c ∷ cs) out h empty = elim (Bool-cases (is_manual c)) [
  | inl by_hand ↦
      let (rest, a, h1) =
        >>=-eq-ok (control_loop live repository rule_set cs) _ (rw (by_hand, control_loop) at h) in
      let same : (rest.0, c ∷ rest.1) ≡ out = ok_inj h1 in
      (
        inl ((eq_iff c.readback "manual-readback").0 by_hand),
        control_loop-none live repository rule_set cs rest a
            (ap (λ p. is_empty (p.0)) same ∙ empty),
      )
  | inr automated ↦
      let (found, a, h1) =
        >>=-eq-ok (check_control live repository rule_set c) _
          (rw (automated, control_loop) at h) in
      let (rest, b, h2) = >>=-eq-ok (control_loop live repository rule_set cs) _ h1 in
      let same : (found ++ rest.0, rest.1) ≡ out = ok_inj h2 in
      let both = sym (is_empty-append found (rest.0)) ∙ (ap (λ p. is_empty (p.0)) same ∙ empty) in
      (
        check_control-IsMet live repository rule_set c found a (and_left _ _ both),
        control_loop-none live repository rule_set cs rest b (and_right (is_empty found) _ both),
      )
]
