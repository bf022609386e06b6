-- ===== src/Drift/Clean.antt =====
-- What an audit without findings means.
use oxide_batch_workloads.Base.{
  select, ◌≡◌, refl, sym, ap, ◌∙◌, ℕ, String, Bool, true, false, not, ◌&&◌, ◌||◌, none, some, List,
  [], ◌∷◌, ◌++◌, All, all, is_empty, is_empty-append, nat_eq, arith, and_intro, and_left, and_right,
  Bool-cases, Option-cases, inl, inr,
}
use oxide_batch_workloads.Base.Dict.{Dict, lookup}
use oxide_batch_workloads.Base.Json.{Json, get, as_dict}
use oxide_batch_workloads.Base.Result.{Result, ok, err, >>=-eq-ok, ok_inj, Result-cases}
use oxide_batch_workloads.Codeql.Coverage.{equals_text}
use oxide_batch_workloads.Drift.{DriftError, is_api_failure}
use oxide_batch_workloads.Drift.Met.{IsMet, control_loop-none}
use oxide_batch_workloads.Drift.Audit.{
  Finding, canonical_checks, failed_checks, Supply, judge_supply, check_supply,
  run_canonical_checks, Control, is_manual, run_live_policy_checks, Label, Shapes, same_shape,
  check_label, label_loop, Item, is_reconciled, item_loop, Readback, Classification, clean,
  classify, Audit, audit_of, Outcome, after_items, after_labels, after_policy, finish, run_audit,
  policy_drift, infrastructure_failure, live_failure, exit_code_for, main,
}

abbrev pub is_labelled : Shapes → Dict (Dict Json) → Label → Bool
is_labelled shapes live wanted = elim (lookup wanted.name live) [
  | none ↦ false
  | some actual ↦ same_shape shapes wanted actual
]

abbrev pub is_clean_supply : Supply → Bool
is_clean_supply s = elim s.result [
  | none ↦ false
  | some j ↦ elim (as_dict j) [
    | none ↦ false
    | some d ↦ equals_text (get d "classification") "clean" && nat_eq s.returncode 0
  ]
]

-- All the checks pass, and every setting, label and open item is as it should be.
pub record IsClean (r : Readback) (controls : List Control) (labels : List Label) : Type 0 where
  pub repository : Json
  pub rule_set : Json
  pub live : Dict (Dict Json)
  pub items : List Item
  pub has_repository : r.live.repository ≡ ok repository
  pub has_rule_set : r.live.ruleset_answer ≡ ok rule_set
  pub has_labels : r.labels ≡ ok live
  pub has_items : r.items ≡ ok items
  pub checks_pass : all (λ c. nat_eq (r.exits c) 0) canonical_checks ≡ true
  pub supply_clean : is_clean_supply r.supply ≡ true
  pub settings : All (IsMet r.live repository rule_set) controls
  pub labelled : all (is_labelled r.shapes live) labels ≡ true
  pub reconciled : all is_reconciled items ≡ true

failed_checks-none :
    (exits : String → ℕ) (cs : List String)
    → is_empty (failed_checks exits cs) ≡ true
    → all (λ c. nat_eq (exits c) 0) cs ≡ true
unfolding failed_checks
failed_checks-none exits [] h = refl
failed_checks-none exits (c ∷ cs) h = ground (arith, failed_checks-none exits cs)

item_loop-none : (is : List Item) → is_empty (item_loop is) ≡ true → all is_reconciled is ≡ true
unfolding item_loop
item_loop-none [] h = refl
item_loop-none (i ∷ is) h = elim (Bool-cases (is_reconciled i)) [
  | inl fine ↦ and_intro _ _ fine (item_loop-none is (rw (fine, item_loop) at h))
  | inr off ↦ absurd (ground (arith, rw (off, item_loop) at h))
]

check_label-none :
    (shapes : Shapes) (live : Dict (Dict Json)) (l : Label)
    → is_empty (check_label shapes live l) ≡ true
    → is_labelled shapes live l ≡ true
unfolding check_label
check_label-none shapes live l h = elim (Option-cases (lookup l.name live)) [
  | inl missing ↦ absurd (ground (arith, rw (missing, check_label) at h))
  | inr (actual, found) ↦ elim (Bool-cases (same_shape shapes l actual)) [
    | inl same ↦ rw (found, is_labelled) same
    | inr other ↦ absurd (ground (arith, rw (found, other, check_label) at h))
  ]
]

label_loop-none :
    (shapes : Shapes) (live : Dict (Dict Json)) (ls : List Label)
    → is_empty (label_loop shapes live ls) ≡ true
    → all (is_labelled shapes live) ls ≡ true
unfolding label_loop
label_loop-none shapes live [] h = refl
label_loop-none shapes live (l ∷ ls) h =
    let both = sym (is_empty-append (check_label shapes live l) (label_loop shapes live ls)) ∙ h in
    and_intro _ _ (check_label-none shapes live l (and_left _ _ both))
      (label_loop-none shapes live ls (and_right (is_empty (check_label shapes live l)) _ both))

both_hold : (a b : Bool) → (not a || not b) ≡ false → (a && b) ≡ true
both_hold a b h = ground arith

judge_supply-none :
    (d : Dict Json) (returncode : ℕ)
    → is_empty ((judge_supply d returncode).0) ≡ true
    → is_empty ((judge_supply d returncode).1) ≡ true
    → (equals_text (get d "classification") "clean" && nat_eq returncode 0) ≡ true
unfolding judge_supply
judge_supply-none d returncode h k =
    elim (Bool-cases (equals_text (get d "classification") "policy-finding")) [
      | inl found ↦ absurd (ground (arith, rw (found, judge_supply) at h))
      | inr no_finding ↦
          elim (Bool-cases (equals_text (get d "classification") "infrastructure-failure")) [
            | inl failed ↦ absurd (ground (arith, rw (no_finding, failed, judge_supply) at k))
            | inr no_failure ↦
                elim (Bool-cases (
                  not (equals_text (get d "classification") "clean")
                  || not (nat_eq returncode 0))) [
                    | inl is_odd ↦
                        absurd
                          (ground (arith, rw (no_finding, no_failure, is_odd, judge_supply) at k))
                    | inr as_usual ↦
                        both_hold (equals_text (get d "classification") "clean")
                          (nat_eq returncode 0) as_usual
                  ]
          ]
    ]

check_supply-none :
    (s : Supply) (out : List Finding × List Finding)
    → check_supply s ≡ ok out
    → is_empty (out.0) ≡ true
    → is_empty (out.1) ≡ true
    → is_clean_supply s ≡ true
unfolding check_supply
check_supply-none s out h k l = elim (Option-cases s.result) [
  | inl missing ↦
      absurd
        (ground (arith, ap (λ p. is_empty (p.1)) (ok_inj (rw (missing, check_supply) at h)) ∙ l))
  | inr (j, found) ↦ elim (Option-cases (as_dict j)) [
    | inl other ↦ absurd (ground (arith, rw (found, other, check_supply) at h))
    | inr (d, is_d) ↦
        let same : judge_supply d s.returncode ≡ out =
          ok_inj (rw (found, is_d, check_supply) at h) in
        rw (found, is_clean_supply)
          (rw is_d (
            judge_supply-none d s.returncode (ap (λ p. is_empty (p.0)) same ∙ k)
              (ap (λ p. is_empty (p.1)) same ∙ l)))
  ]
]

classify-clean :
    (policy infrastructure : List Finding)
    → classify policy infrastructure ≡ clean
    → (is_empty policy ≡ true) × (is_empty infrastructure ≡ true)
unfolding classify
classify-clean [] [] h = (refl, refl)
classify-clean (p ∷ ps) [] h = absurd (ground arith)
classify-clean ps (f ∷ fs) h = absurd (ground arith)

finish-clean :
    (found : List Finding × List Finding) (o : Outcome) (audit : Audit)
    → finish found o ≡ ok audit
    → audit.classification ≡ clean
    → (o.failure ≡ none)
      × (is_empty (found.0) ≡ true)
      × (is_empty (found.1) ≡ true)
      × (is_empty o.findings ≡ true)
unfolding finish audit_of
finish-clean found o audit h is_clean = elim (Option-cases o.failure) [
  | inl fine ↦
      let same = ap (λ a. a.classification) (ok_inj (rw (fine, finish) at h)) ∙ is_clean in
      let (policy, infrastructure) = classify-clean (found.0 ++ o.findings) (found.1) same in
      let both = sym (is_empty-append (found.0) o.findings) ∙ policy in
      (fine, and_left _ _ both, infrastructure, and_right (is_empty (found.0)) _ both)
  | inr (e, failed) ↦ elim (Bool-cases (is_api_failure e)) [
    | inl caught ↦
        let same =
          ap (λ a. a.classification) (ok_inj (rw (failed, caught, finish) at h)) ∙ is_clean in
        let (policy, infrastructure) =
          classify-clean (found.0 ++ o.findings) (found.1 ++ (live_failure e ∷ [])) same in
        absurd
          (ground (arith, sym (is_empty-append (found.1) (live_failure e ∷ [])) ∙ infrastructure))
    | inr uncaught ↦ absurd (ground (arith, rw (failed, uncaught, finish) at h))
  ]
]

exit_code-clean : (k : Classification) → exit_code_for k ≡ 0 → k ≡ clean
exit_code-clean clean h = refl
exit_code-clean policy_drift h = absurd (ground arith)
exit_code-clean infrastructure_failure h = absurd (ground arith)

-- The live checks without a failure or a finding.
after_policy-none :
    (r : Readback) (labels : List Label) (manual : List Control)
    (p : Result DriftError (List Finding × List Control))
    → (after_policy r labels manual p).failure ≡ none
    → is_empty ((after_policy r labels manual p).findings) ≡ true
    → (out : List Finding × List Control) × (live : Dict (Dict Json)) × (items : List Item) × (p
        ≡ ok out)
      × (r.labels ≡ ok live)
      × (r.items ≡ ok items)
      × (is_empty (out.0) ≡ true)
      × (is_empty (label_loop r.shapes live labels) ≡ true)
      × (is_empty (item_loop items) ≡ true)
unfolding after_policy after_labels after_items
after_policy-none r labels manual (err e) h k = absurd (ground arith)
after_policy-none r labels manual (ok (found, controls)) h k = elim (Result-cases r.labels) [
  | inl (e, failed) ↦ absurd (ground (arith, rw (failed, after_policy) at h))
  | inr (live, has_labels) ↦ elim (Result-cases r.items) [
    | inl (e, failed) ↦
        absurd (ground (arith, rw (has_labels, failed, after_policy, after_labels) at h))
    | inr (items, has_items) ↦
        let all_three =
          sym (is_empty-append (found ++ label_loop r.shapes live labels) (item_loop items))
          ∙ (rw (has_labels, has_items, after_policy, after_labels) at k) in
        let two =
          sym (is_empty-append found (label_loop r.shapes live labels)) ∙ and_left _ _ all_three in
        (
          (found, controls),
          live,
          items,
          refl,
          has_labels,
          has_items,
          and_left _ _ two,
          and_right (is_empty found) _ two,
          and_right (is_empty (found ++ label_loop r.shapes live labels)) _ all_three,
        )
  ]
]

run_audit-IsClean :
    (r : Readback) (controls : List Control) (labels : List Label) (audit : Audit)
    → run_audit r controls labels ≡ ok audit
    → audit.classification ≡ clean
    → IsClean r controls labels
unfolding run_audit run_canonical_checks run_live_policy_checks
run_audit-IsClean r controls labels audit h is_clean =
    let (found, a, h1) = >>=-eq-ok (run_canonical_checks r.exits r.supply) _ h in
    let (supplied, b, h2) = >>=-eq-ok (check_supply r.supply) _ a in
    let (fine, policy, infrastructure, empty) =
      finish-clean found
        (after_policy r labels (select is_manual controls) (run_live_policy_checks r.live controls))
        audit h1 is_clean in
    let (out, live, items, c, has_labels, has_items, no_policy, no_label, no_item) =
      after_policy-none r labels (select is_manual controls)
        (run_live_policy_checks r.live controls) fine empty in
    let (repository, d, c1) = >>=-eq-ok r.live.repository _ c in
    let (rule_set, e, c2) = >>=-eq-ok r.live.ruleset_answer _ c1 in
    let same : (failed_checks r.exits canonical_checks ++ supplied.0, supplied.1) ≡ found =
      ok_inj h2 in
    let both =
      sym (is_empty-append (failed_checks r.exits canonical_checks) (supplied.0))
      ∙ (ap (λ p. is_empty (p.0)) same ∙ policy) in
    record {
      repository = repository;
      rule_set = rule_set;
      live = live;
      items = items;
      has_repository = d;
      has_rule_set = e;
      has_labels = has_labels;
      has_items = has_items;
      checks_pass = failed_checks-none r.exits canonical_checks (and_left _ _ both);
      supply_clean =
          check_supply-none r.supply supplied b
            (and_right (is_empty (failed_checks r.exits canonical_checks)) _ both)
            (ap (λ p. is_empty (p.1)) same ∙ infrastructure);
      settings = control_loop-none r.live repository rule_set controls out c2 no_policy;
      labelled = label_loop-none r.shapes live labels no_label;
      reconciled = item_loop-none items no_item;
    }

-- If a live run of the audit exits with 0, then every canonical check passed, the supply-chain audit
-- is clean, every control of the policy that is not read by hand has the value that the policy
-- expects, every canonical label is there in its shape, and every open item is reconciled.
pub main-IsClean :
    (has_credentials : Bool) (r : Readback) (controls : List Control) (labels : List Label)
    → main has_credentials r controls labels ≡ 0
    → (has_credentials ≡ true) × IsClean r controls labels
unfolding main
main-IsClean false r controls labels h = absurd (ground arith)
main-IsClean true r controls labels h = elim (Result-cases (run_audit r controls labels)) [
  | inl (e, failed) ↦ absurd (ground (arith, rw (failed, main) at h))
  | inr (audit, done) ↦ (
    refl,
    run_audit-IsClean r controls labels audit done
        (exit_code-clean audit.classification (rw (done, main) at h)),
  )
]
