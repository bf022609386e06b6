-- ===== src/Codeql/Harmless.antt =====
-- The results that the checks on the findings let through.
use oxide_batch_workloads.Base.{
  and_intro, and_left, and_right, ℕ, ◌≡◌, refl, String, Bool, true, false, not, ◌&&◌, ◌||◌, none,
  some, List, [], ◌∷◌, ◌++◌, is_empty, is_empty-append, all, arith, Option-cases, inl, inr,
  if◌then◌else◌,
}
use oxide_batch_workloads.Base.Dict.{Dict, lookup}
use oxide_batch_workloads.Base.Json.{Json, get, as_dict, as_str}
use oxide_batch_workloads.Base.Result.{
  ok, ◌>>◌, require, >>=-eq-ok, reject_if-eq-ok, require-eq-ok, ok_inj,
}
use oxide_batch_workloads.Codeql.{wrong_reference}
use oxide_batch_workloads.Codeql.Findings.{
  RuleTable, refers, properties, tags_of, is_security, scores_of, Scores, high_scores, check_scores,
  check_properties, check_result, check_results,
}

module _ {S : Type 0} (s : Scores S) where
  -- A score that is read as a float between 0 and 7, 7 excluded.
  abbrev pub is_low : Json → Bool
  is_low score = elim (s.float score) [ none ↦ false | some v ↦ s.in_range v && not (s.is_high v) ]

  -- The result of a rule: it has a score if the rule is tagged as a security rule, and all are low.
  abbrev pub low_result : Dict Json → Dict Json → Bool
  low_result props rprops = elim (tags_of props) [
    | none ↦ false
    | some tags ↦
        let scores = scores_of props rprops in
        (not (is_security tags) || not (is_empty scores)) && all is_low scores
  ]

  abbrev pub low_properties : Dict Json → Dict Json → Bool
  low_properties rule result = elim (properties rule) [
    | none ↦ false
    | some props ↦ elim (properties result) [ none ↦ false | some rprops ↦ low_result props rprops ]
  ]

  -- A result that refers to a known rule and is low.
  abbrev pub is_harmless : RuleTable → ℕ → Json → Bool
  is_harmless table component_index result = elim (as_dict result) [
    | none ↦ false
    | some d ↦ elim (as_str (get d "ruleId")) [
      | none ↦ false
      | some rid ↦ elim (lookup rid table) [
        | none ↦ false
        | some (rule_index, rule) ↦ refers d rid rule_index component_index && low_properties rule d
      ]
    ]
  ]

  high_scores-low :
      (rid : String) (scores : List Json) (high : List String)
      → high_scores s rid scores ≡ ok high
      → is_empty high ≡ true
      → all is_low scores ≡ true
  unfolding high_scores
  high_scores-low rid [] high h e = refl
  high_scores-low rid (score ∷ scores) high h e = elim (Option-cases (s.float score)) [
    | inl missing ↦ absurd (ground arith)
    | inr (v, found) ↦
        let (fine, h1) = reject_if-eq-ok (not (s.in_range v)) _ _ (rw (found, high_scores) at h) in
        let (rest, later, h2) = >>=-eq-ok (high_scores s rid scores) _ h1 in
        let kept : (if s.is_high v then rid ∷ rest else rest) ≡ high = ok_inj h2 in
        ground (arith, high_scores-low rid scores rest later, found, fine, kept)
  ]

  check_scores-low :
      (rid : String) (props rprops : Dict Json) (high : List String)
      → check_scores s rid props rprops ≡ ok high
      → is_empty high ≡ true
      → low_result props rprops ≡ true
  unfolding check_scores
  check_scores-low rid props rprops high h e = elim (Option-cases (tags_of props)) [
    | inl missing ↦ absurd (ground arith)
    | inr (tags, found) ↦
        let (scored, h1) =
          reject_if-eq-ok (is_security tags && is_empty (scores_of props rprops)) _ _
            (rw (found, check_scores) at h) in
        rw (found, low_result)
          (ground (arith, high_scores-low rid (scores_of props rprops) high h1 e, scored))
  ]

  check_properties-low :
      (rid : String) (rule result : Dict Json) (high : List String)
      → check_properties s rid rule result ≡ ok high
      → is_empty high ≡ true
      → low_properties rule result ≡ true
  unfolding check_properties
  check_properties-low rid rule result high h e = elim (Option-cases (properties rule)) [
    | inl missing ↦ absurd (ground arith)
    | inr (props, found) ↦ elim (Option-cases (properties result)) [
      | inl missing ↦ absurd (ground arith)
      | inr (rprops, found') ↦
          rw (found, low_properties)
            (rw found' (check_scores-low rid props rprops high (ground arith) e))
    ]
  ]

  check_result-found :
      (table : RuleTable) (component_index : ℕ) (result : Json) (high : List String) (d : Dict Json)
      (rid : String) (rule_index : ℕ) (rule : Dict Json)
      → as_dict result ≡ some d
      → as_str (get d "ruleId") ≡ some rid
      → lookup rid table ≡ some (rule_index, rule)
      → check_result s table component_index result ≡ ok high
      → (require (refers d rid rule_index component_index) (wrong_reference rid)
          >> check_properties s rid rule d)
        ≡ ok high
  unfolding check_result
  check_result-found table component_index result high d rid rule_index rule is_dict named known h =
      ground arith

  check_result-harmless :
      (table : RuleTable) (component_index : ℕ) (result : Json) (high : List String)
      → check_result s table component_index result ≡ ok high
      → is_empty high ≡ true
      → is_harmless table component_index result ≡ true
  unfolding check_result
  check_result-harmless table component_index result high h e =
      elim (Option-cases (as_dict result)) [
        | inl missing ↦ absurd (ground arith)
        | inr (d, is_dict) ↦ elim (Option-cases (as_str (get d "ruleId"))) [
          | inl missing ↦ absurd (ground arith)
          | inr (rid, named) ↦ elim (Option-cases (lookup rid table)) [
            | inl missing ↦ absurd (ground arith)
            | inr ((rule_index, rule), known) ↦
                let (referred, h1) =
                  require-eq-ok (refers d rid rule_index component_index) _
                    (check_properties s rid rule d)
                    (check_result-found table component_index result high d rid rule_index rule
                      is_dict named known h) in
                rw (is_dict, is_harmless)
                  (rw named (rw known (rw referred (check_properties-low rid rule d high h1 e))))
          ]
        ]
      ]

  pub check_results-harmless :
      (table : RuleTable) (component_index : ℕ) (results : List Json) (high : List String)
      → check_results s table component_index results ≡ ok high
      → is_empty high ≡ true
      → all (is_harmless table component_index) results ≡ true
  unfolding check_results
  check_results-harmless table component_index [] high h e = refl
  check_results-harmless table component_index (r ∷ rs) high h e =
      let (first, one, h1) = >>=-eq-ok (check_result s table component_index r) _ h in
      let (rest, more, h2) = >>=-eq-ok (check_results s table component_index rs) _ h1 in
      let joined : first ++ rest ≡ high = ok_inj h2 in
      let both : (is_empty first && is_empty rest) ≡ true =
        ground (arith, is_empty-append first rest, joined) in
      and_intro _ _
        (check_result-harmless table component_index r first one (and_left (is_empty first) _ both))
        (check_results-harmless table component_index rs rest more
          (and_right (is_empty first) _ both))
