-- ===== src/Drift/Settings.antt =====
-- The settings of the repository, read straight from what GitHub answers.
use oxide_batch_workloads.Base.{
  ◌≡◌, refl, sym, ap, ◌∙◌, ◌⊎◌, inl, inr, String, Bool, true, false, ◌==◌, ◌&&◌, ◌||◌, Option, none,
  some, List, [], ◌∷◌, any, arith, Option-cases, eq_iff, if◌then◌else◌,
}
use oxide_batch_workloads.Base.Dict.{Dict, lookup, insert, has_key, has_key-insert, lookup-insert}
use oxide_batch_workloads.Base.Json.{Json, array, get, as_dict, as_str}
use oxide_batch_workloads.Base.SameJson.{same_json}
use oxide_batch_workloads.Base.Result.{Result, ok, ◌>>=◌, >>=-eq-ok, >>-eq-ok, ok_inj}
use oxide_batch_workloads.Drift.{
  DriftError, entries_at, dict_in, rule_loop, rules_by_type, parameters_of, contexts_of,
  sorted_values, status_contexts, targets_default_branch, ruleset_value, actual_ruleset_value,
  has_rule,
}

-- The value is a rule of this type.
abbrev pub has_type : String → Json → Bool
has_type kind j = elim (as_dict j) [
  | none ↦ false
  | some rule ↦ elim (as_str (get rule "type")) [ none ↦ false | some t ↦ t == kind ]
]

-- The last rule of this type, or what there was before.
abbrev pub last_rule : String → List Json → Option (Dict Json) → Option (Dict Json)
last_rule kind [] before = before
last_rule kind (j ∷ js) before = last_rule kind js (if has_type kind j then as_dict j else before)

-- The parameters of the last rule of this type; none are there without such a rule.
abbrev pub AreParameters : List Json → String → Dict Json → Type 0
AreParameters rules kind d = elim (last_rule kind rules none) [
  | none ↦ d ≡ []
  | some rule ↦ dict_in rule "parameters" ≡ ok d
]

-- Those of the rule on pull requests.
abbrev pub names_pull_request : String → String → Bool
names_pull_request id name =
    (id == "ruleset.allowed_merge_methods" && name == "allowed_merge_methods")
    || ((id == "ruleset.review_thread_resolution" && name == "required_review_thread_resolution")
        || ((id == "ruleset.required_approving_review_count"
              && name == "required_approving_review_count")
            || (id == "ruleset.require_extra_approval_for_unattributed_changes"
                && name == "require_extra_approval_for_unattributed_changes")))

-- The controls that ask whether there is a rule of a type.
abbrev pub names_rule : String → String → Bool
names_rule id kind =
    (id == "ruleset.deletion_protection" && kind == "deletion")
    || ((id == "ruleset.non_fast_forward_protection" && kind == "non_fast_forward")
        || ((id == "ruleset.required_linear_history" && kind == "required_linear_history")
            || ((id == "ruleset.pull_request_required" && kind == "pull_request")
                || (id == "security.signed_commits" && kind == "required_signatures"))))

-- The controls that ask for a parameter of a rule.
abbrev pub names_parameter : String → String → String → Bool
names_parameter id kind name =
    (kind == "pull_request" && names_pull_request id name)
    || (kind == "required_status_checks"
        && (id == "ruleset.strict_required_status_checks"
            && name == "strict_required_status_checks_policy"))

-- The value of a setting of the ruleset with these rules, by the identifier of its control.
pub data IsSetting (rule_set : Dict Json) (rules : List Json) (id : String) (actual : Json)
    : Type 0 where
  enforcement :
      id ≡ "ruleset.enforcement"
      → actual ≡ get rule_set "enforcement"
      → IsSetting rule_set rules id actual
  default_branch :
      (conditions ref_name : Dict Json)
      → id ≡ "ruleset.target_default_branch"
      → dict_in rule_set "conditions" ≡ ok conditions
      → dict_in conditions "ref_name" ≡ ok ref_name
      → actual
        ≡ Json.bool (
            same_json (get ref_name "include") (Json.arr (array (Json.str "~DEFAULT_BRANCH" ∷ []))))
      → IsSetting rule_set rules id actual
  a_rule :
      (kind : String)
      → names_rule id kind ≡ true
      → actual ≡ Json.bool (any (has_type kind) rules)
      → IsSetting rule_set rules id actual
  a_parameter :
      (kind name : String) (d : Dict Json)
      → names_parameter id kind name ≡ true
      → AreParameters rules kind d
      → actual ≡ get d name
      → IsSetting rule_set rules id actual
  contexts :
      (d : Dict Json) (entries sorted_contexts : List Json)
      → id ≡ "ruleset.required_status_contexts"
      → AreParameters rules "required_status_checks" d
      → entries_at d "required_status_checks" ≡ ok entries
      → sorted_values (contexts_of entries) ≡ ok sorted_contexts
      → actual ≡ Json.arr (array sorted_contexts)
      → IsSetting rule_set rules id actual
  bypass :
      id ≡ "ruleset.bypass_actors"
      → actual
        ≡ (elim (lookup "bypass_actors" rule_set) [ none ↦ Json.arr (array []) | some j ↦ j ])
      → IsSetting rule_set rules id actual

has_type-no_object : (kind : String) (j : Json) → as_dict j ≡ none → has_type kind j ≡ false
has_type-no_object kind j e = rw (e, has_type) refl

module _ (kind : String) (j : Json) (rule : Dict Json) (is_object : as_dict j ≡ some rule) where
  has_type-no_text : as_str (get rule "type") ≡ none → has_type kind j ≡ false
  has_type-no_text e = rw (is_object, has_type) (rw e refl)

  has_type-text : (t : String) → as_str (get rule "type") ≡ some t → has_type kind j ≡ (t == kind)
  has_type-text t e = rw (is_object, has_type) (rw e refl)

-- A value that is no rule of the type is passed over.
last_rule-other :
    (kind : String) (j : Json) (js : List Json) (before : Option (Dict Json))
    → has_type kind j ≡ false
    → last_rule kind (j ∷ js) before ≡ last_rule kind js before
last_rule-other kind j js before e = ap (λ b. last_rule kind js (if b then as_dict j else before)) e

rule_loop-lookup :
    (kind : String) (acc out : Dict (Dict Json)) (rules : List Json)
    → rule_loop acc rules ≡ ok out
    → lookup kind out ≡ last_rule kind rules (lookup kind acc)
unfolding rule_loop
rule_loop-lookup kind acc out [] h = ap (lookup kind) (sym (ok_inj h))
rule_loop-lookup kind acc out (j ∷ js) h = elim (Option-cases (as_dict j)) [
  | inl missing ↦
      rule_loop-lookup kind acc out js (rw (missing, rule_loop) at h)
      ∙ sym (last_rule-other kind j js (lookup kind acc) (has_type-no_object kind j missing))
  | inr (rule, found) ↦ elim (Option-cases (as_str (get rule "type"))) [
    | inl missing ↦
        let (hashed, h1) = >>-eq-ok _ _ (rw (found, missing, rule_loop) at h) in
        rule_loop-lookup kind acc out js h1
        ∙ sym (
            last_rule-other kind j js (lookup kind acc)
              (has_type-no_text kind j rule found missing))
    | inr (t, typed) ↦
        rule_loop-lookup kind (insert t rule acc) out js (rw (found, typed, rule_loop) at h)
        ∙ ap (last_rule kind js) (
            lookup-insert t kind rule acc
            ∙ sym (
                ap (λ b. if b then as_dict j else lookup kind acc)
                  (has_type-text kind j rule found t typed)
                ∙ ap (λ o. if t == kind then o else lookup kind acc) found))
  ]
]

rule_loop-has_key :
    (kind : String) (acc out : Dict (Dict Json)) (rules : List Json)
    → rule_loop acc rules ≡ ok out
    → has_key out kind ≡ (any (has_type kind) rules || has_key acc kind)
unfolding rule_loop
rule_loop-has_key kind acc out [] h = ap (λ d. has_key d kind) (sym (ok_inj h))
rule_loop-has_key kind acc out (j ∷ js) h = elim (Option-cases (as_dict j)) [
  | inl missing ↦
      rule_loop-has_key kind acc out js (rw (missing, rule_loop) at h)
      ∙ sym (
          ap (λ b. (b || any (has_type kind) js) || has_key acc kind)
            (has_type-no_object kind j missing))
  | inr (rule, found) ↦ elim (Option-cases (as_str (get rule "type"))) [
    | inl missing ↦
        let (hashed, h1) = >>-eq-ok _ _ (rw (found, missing, rule_loop) at h) in
        rule_loop-has_key kind acc out js h1
        ∙ sym (
            ap (λ b. (b || any (has_type kind) js) || has_key acc kind)
              (has_type-no_text kind j rule found missing))
    | inr (t, typed) ↦
        rule_loop-has_key kind (insert t rule acc) out js (rw (found, typed, rule_loop) at h)
        ∙ (ap (λ b. any (has_type kind) js || b) (has_key-insert t kind rule acc)
            ∙ (swap (any (has_type kind) js) (t == kind) (has_key acc kind)
                ∙ sym (
                    ap (λ b. (b || any (has_type kind) js) || has_key acc kind)
                      (has_type-text kind j rule found t typed))))
  ]
]
  where
    swap : (a b c : Bool) → (a || (b || c)) ≡ ((b || a) || c)
    swap a b c = ground arith

chosen :
    {A : Type 0} (b : Bool) (x y : Result DriftError A) {a : A}
    → (if b then x else y) ≡ ok a
    → ((b ≡ true) × (x ≡ ok a)) ⊎ ((b ≡ false) × (y ≡ ok a))
chosen true x y h = inl (refl, h)
chosen false x y h = inr (refl, h)

module _ (rule_set : Dict Json) (rules : List Json) (by_type : Dict (Dict Json))
    (loaded : rule_loop [] rules ≡ ok by_type) where
  parameters_of-AreParameters :
      (kind : String) (d : Dict Json)
      → parameters_of by_type kind ≡ ok d
      → AreParameters rules kind d
  unfolding parameters_of
  parameters_of-AreParameters kind d h = elim (Option-cases (last_rule kind rules none)) [
    | inl nothing ↦
        rw (nothing, AreParameters) (sym (ok_inj (rw (same ∙ nothing, parameters_of) at h)))
    | inr (rule, found) ↦ rw (found, AreParameters) (rw (same ∙ found, parameters_of) at h)
  ]
    where
      same : lookup kind by_type ≡ last_rule kind rules none
      same = rule_loop-lookup kind [] by_type rules loaded

  is_rule :
      (id kind : String) (actual : Json)
      → names_rule id kind ≡ true
      → has_rule by_type kind ≡ ok actual
      → IsSetting rule_set rules id actual
  is_rule id kind actual named h = a_rule kind named (
      sym (ok_inj h)
      ∙ ap Json.bool (ground (arith, rule_loop-has_key kind [] by_type rules loaded)))

  is_parameter :
      (id kind name : String) (actual : Json)
      → names_parameter id kind name ≡ true
      → (parameters_of by_type kind >>= λ d. ok (get d name)) ≡ ok actual
      → IsSetting rule_set rules id actual
  is_parameter id kind name actual named h =
      let (d, a, h1) = >>=-eq-ok (parameters_of by_type kind) _ h in
      a_parameter kind name d named (parameters_of-AreParameters kind d a) (sym (ok_inj h1))

  ruleset_value-IsSetting :
      (id : String) (actual : Json)
      → ruleset_value id rule_set by_type ≡ ok actual
      → IsSetting rule_set rules id actual
  unfolding ruleset_value status_contexts targets_default_branch
  ruleset_value-IsSetting id actual h = elim (chosen (id == "ruleset.enforcement") _ _ h) [
    | inl (e, k) ↦ enforcement ((eq_iff id "ruleset.enforcement").0 e) (sym (ok_inj k))
    | inr (n, h1) ↦ elim (chosen (id == "ruleset.target_default_branch") _ _ h1) [
      | inl (e, k) ↦
          let (conditions, a, k1) = >>=-eq-ok (dict_in rule_set "conditions") _ k in
          let (ref_name, b, k2) = >>=-eq-ok (dict_in conditions "ref_name") _ k1 in
          default_branch conditions ref_name ((eq_iff id "ruleset.target_default_branch").0 e) a b
            (sym (ok_inj k2))
      | inr (n, h2) ↦ elim (chosen (id == "ruleset.deletion_protection") _ _ h2) [
        | inl (e, k) ↦
            is_rule id "deletion" actual
              (ground (arith, (eq_iff id "ruleset.deletion_protection").0 e)) k
        | inr (n, h3) ↦ elim (chosen (id == "ruleset.non_fast_forward_protection") _ _ h3) [
          | inl (e, k) ↦
              is_rule id "non_fast_forward" actual
                (ground (arith, (eq_iff id "ruleset.non_fast_forward_protection").0 e)) k
          | inr (n, h4) ↦ elim (chosen (id == "ruleset.required_linear_history") _ _ h4) [
            | inl (e, k) ↦
                is_rule id "required_linear_history" actual
                  (ground (arith, (eq_iff id "ruleset.required_linear_history").0 e)) k
            | inr (n, h5) ↦ elim (chosen (id == "ruleset.pull_request_required") _ _ h5) [
              | inl (e, k) ↦
                  is_rule id "pull_request" actual
                    (ground (arith, (eq_iff id "ruleset.pull_request_required").0 e)) k
              | inr (n, h6) ↦ elim (chosen (id == "ruleset.allowed_merge_methods") _ _ h6) [
                | inl (e, k) ↦
                    is_parameter id "pull_request" "allowed_merge_methods" actual
                      (ground (arith, (eq_iff id "ruleset.allowed_merge_methods").0 e)) k
                | inr (n, h7) ↦ elim (chosen (id == "ruleset.review_thread_resolution") _ _ h7) [
                  | inl (e, k) ↦
                      is_parameter id "pull_request" "required_review_thread_resolution" actual
                        (ground (arith, (eq_iff id "ruleset.review_thread_resolution").0 e)) k
                  | inr (n, h8) ↦
                      elim (chosen (id == "ruleset.required_approving_review_count") _ _ h8) [
                        | inl (e, k) ↦
                            is_parameter id "pull_request" "required_approving_review_count" actual
                              (ground
                                (arith, (eq_iff id "ruleset.required_approving_review_count").0 e))
                              k
                        | inr (n, h9) ↦
                            elim (chosen
                              (id == "ruleset.require_extra_approval_for_unattributed_changes") _ _
                              h9) [
                                | inl (e, k) ↦
                                    is_parameter id "pull_request"
                                      "require_extra_approval_for_unattributed_changes" actual
                                      (ground (
                                        arith,
                                        (eq_iff id
                                              "ruleset.require_extra_approval_for_unattributed_changes").0
                                            e,
                                      ))
                                      k
                                | inr (n, h10) ↦
                                    elim (chosen (id == "ruleset.strict_required_status_checks") _ _
                                      h10) [
                                        | inl (e, k) ↦
                                            is_parameter id "required_status_checks"
                                              "strict_required_status_checks_policy" actual
                                              (ground (
                                                arith,
                                                (eq_iff id
                                                      "ruleset.strict_required_status_checks").0
                                                    e,
                                              ))
                                              k
                                        | inr (n, h11) ↦
                                            elim (chosen (id == "ruleset.required_status_contexts")
                                              _ _ h11) [
                                                | inl (e, k) ↦
                                                    let (d, a, k1) =
                                                      >>=-eq-ok
                                                        (parameters_of by_type
                                                          "required_status_checks")
                                                        _ k in
                                                    let (entries, b, k2) =
                                                      >>=-eq-ok
                                                        (entries_at d "required_status_checks") _
                                                        k1 in
                                                    let (sorted_contexts, g, k3) =
                                                      >>=-eq-ok
                                                        (sorted_values (contexts_of entries)) _
                                                        k2 in
                                                    contexts d entries sorted_contexts
                                                      ((eq_iff id
                                                          "ruleset.required_status_contexts").0
                                                        e)
                                                      (parameters_of-AreParameters
                                                        "required_status_checks" d a)
                                                      b g (sym (ok_inj k3))
                                                | inr (n, h12) ↦
                                                    elim (chosen (id == "ruleset.bypass_actors") _ _
                                                      h12) [
                                                        | inl (e, k) ↦
                                                            bypass
                                                            ((eq_iff id "ruleset.bypass_actors").0
                                                            e)
                                                            (sym (ok_inj k))
                                                        | inr (n, h13) ↦
                                                            elim (chosen
                                                            (id == "security.signed_commits") _ _
                                                            h13) [
                                                              | inl (e, k) ↦
                                                                is_rule id "required_signatures"
                                                                actual
                                                                (ground (
                                                                arith,
                                                                (eq_iff id
                                                                "security.signed_commits").0
                                                                e,
                                                                ))
                                                                k
                                                              | inr (n, h14) ↦
                                                                absurd (ground (arith, h14))
                                                            ]
                                                      ]
                                              ]
                                      ]
                              ]
                      ]
                ]
              ]
            ]
          ]
        ]
      ]
    ]
  ]

-- What the ruleset answers for a control is its setting.
pub actual_ruleset_value-IsSetting :
    (id : String) (value actual : Json)
    → actual_ruleset_value id value ≡ ok actual
    → (rule_set : Dict Json) × (rules : List Json) × (as_dict value ≡ some rule_set)
      × (entries_at rule_set "rules" ≡ ok rules)
      × IsSetting rule_set rules id actual
unfolding actual_ruleset_value rules_by_type
actual_ruleset_value-IsSetting id value actual h = elim (Option-cases (as_dict value)) [
  | inl missing ↦ absurd (ground (arith, rw (missing, actual_ruleset_value) at h))
  | inr (rule_set, found) ↦
      let (by_type, a, h1) =
        >>=-eq-ok (rules_by_type rule_set) _ (rw (found, actual_ruleset_value) at h) in
      let (rules, b, h2) = >>=-eq-ok (entries_at rule_set "rules") _ a in
      (rule_set, rules, found, b, ruleset_value-IsSetting rule_set rules by_type h2 id actual h1)
]
