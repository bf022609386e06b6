-- ===== src/Codeql/Findings.antt =====
-- The part of `check` on the query pack's rules and on the results. A float is read from a score by
-- a parameter, with the tests that the source makes on it.
use oxide_batch_workloads.Base.{
  ℕ, suc, String, Bool, false, not, ◌&&◌, ◌||◌, ◌==◌, Option, none, some, List, [], ◌∷◌, ◌++◌,
  is_empty, length, any, select, sorted, starts_with, if◌then◌else◌,
}
use oxide_batch_workloads.Base.Dict.{Dict, lookup, insert, has_key}
use oxide_batch_workloads.Base.Json.{Json, null, get, as_dict, as_list, as_str, equals_num}
use oxide_batch_workloads.Base.Result.{Result, ok, err, ◌>>=◌, ◌>>◌, reject_if, require}
use oxide_batch_workloads.Codeql.{
  Language, CodeqlError, no_rules, wrong_rule_id, no_results, malformed_properties, malformed_tags,
  reduced_rules, unknown_rule, wrong_reference, no_severity, unparseable_severity, out_of_range,
  high_findings,
}
use oxide_batch_workloads.Codeql.Rules.{required}
use oxide_batch_workloads.Codeql.Coverage.{equals_text}

-- A rule by its identifier: its index and its dict.
abbrev pub RuleTable : Type 0
RuleTable = Dict (ℕ × Dict Json)

abbrev pub rule_id : Json → Json
rule_id rule = elim (as_dict rule) [ none ↦ null | some d ↦ get d "id" ]

-- One round of the loop that fills `by_id`.
unfoldable pub add_rule : ℕ → Json → RuleTable → Result CodeqlError RuleTable
unfolding insert get
add_rule index rule table = elim (as_dict rule) [
  | none ↦ err wrong_rule_id
  | some d ↦ elim (as_str (get d "id")) [
    | none ↦ err wrong_rule_id
    | some rid ↦
        if rid == "" || has_key table rid
        then err wrong_rule_id
        else ok (insert rid (index, d) table)
  ]
]

unfoldable pub index_rules : ℕ → List Json → RuleTable → Result CodeqlError RuleTable
unfolding add_rule
index_rules index [] table = ok table
index_rules index (rule ∷ rules) table =
    add_rule index rule table >>= λ t. index_rules (suc index) rules t

-- `result.get("rule")` refers to the rule, by its identifier and the indices.
unfoldable pub refers : Dict Json → String → ℕ → ℕ → Bool
unfolding get
refers result rid rule_index component_index = elim (as_dict (get result "rule")) [
  | none ↦ false
  | some reference ↦ elim (as_dict (get reference "toolComponent")) [
    | none ↦ false
    | some component ↦
        equals_text (get reference "id") rid
        && (equals_num (get reference "index") rule_index
            && equals_num (get component "index") component_index)
  ]
]

-- `d.get("properties", {})`, if that is a dict.
unfoldable pub properties : Dict Json → Option (Dict Json)
unfolding lookup
properties d = elim (lookup "properties" d) [ none ↦ some [] | some j ↦ as_dict j ]

-- `props.get("tags", [])`, if that is a list.
unfoldable pub tags_of : Dict Json → Option (List Json)
unfolding lookup
tags_of props = elim (lookup "tags" props) [ none ↦ some [] | some j ↦ as_list j ]

abbrev pub is_cwe : Json → Bool
is_cwe (Json.str tag) = starts_with tag "external/cwe/" || starts_with tag "cwe/"
is_cwe j = false

abbrev pub is_security : List Json → Bool
is_security tags = any (λ t. equals_text t "security") tags || any is_cwe tags

abbrev score_of : Dict Json → List Json
score_of d = elim (lookup "security-severity" d) [ none ↦ [] | some j ↦ j ∷ [] ]

-- The scores of a rule and of a result.
unfoldable pub scores_of : Dict Json → Dict Json → List Json
unfolding lookup
scores_of props rprops = score_of props ++ score_of rprops

-- `float(score)`, `math.isfinite(value) and 0 <= value <= 10`, and `value >= 7.0`.
pub record Scores (S : Type 0) : Type 0 where
  pub float : Json → Option S
  pub in_range : S → Bool
  pub is_high : S → Bool

module _ {S : Type 0} (s : Scores S) where
  -- The loop over the scores; the high ones are returned by their rule.
  unfoldable pub high_scores : String → List Json → Result CodeqlError (List String)
  high_scores rid [] = ok []
  high_scores rid (score ∷ scores) =
      let rest = high_scores rid scores in
      elim (s.float score) [
        | none ↦ err (unparseable_severity rid)
        | some v ↦
            reject_if (not (s.in_range v)) (out_of_range rid)
            >> (rest >>= λ high. ok (if s.is_high v then rid ∷ high else high))
      ]

  -- The checks of one result below those on the rule reference.
  unfoldable pub check_scores : String → Dict Json → Dict Json → Result CodeqlError (List String)
  unfolding high_scores scores_of tags_of
  check_scores rid props rprops = elim (tags_of props) [
    | none ↦ err malformed_tags
    | some tags ↦
        let scores = scores_of props rprops in
        reject_if (is_security tags && is_empty scores) (no_severity rid) >> high_scores rid scores
  ]

  unfoldable pub check_properties :
      String → Dict Json → Dict Json → Result CodeqlError (List String)
  unfolding check_scores properties
  check_properties rid rule result = elim (properties rule) [
    | none ↦ err malformed_properties
    | some props ↦ elim (properties result) [
      | none ↦ err malformed_properties
      | some rprops ↦ check_scores rid props rprops
    ]
  ]

  -- One round of the loop over the results.
  unfoldable pub check_result : RuleTable → ℕ → Json → Result CodeqlError (List String)
  unfolding check_properties refers get lookup
  check_result table component_index result = elim (as_dict result) [
    | none ↦ err (unknown_rule null)
    | some d ↦ elim (as_str (get d "ruleId")) [
      | none ↦ err (unknown_rule (get d "ruleId"))
      | some rid ↦ elim (lookup rid table) [
        | none ↦ err (unknown_rule (Json.str rid))
        | some (rule_index, rule) ↦
            require (refers d rid rule_index component_index) (wrong_reference rid)
            >> check_properties rid rule d
      ]
    ]
  ]

  unfoldable pub check_results : RuleTable → ℕ → List Json → Result CodeqlError (List String)
  unfolding check_result
  check_results table component_index [] = ok []
  check_results table component_index (r ∷ rs) = check_result table component_index r >>= λ high.
      check_results table component_index rs >>= λ more. ok (high ++ more)

  -- The numbers of results and of rules.
  unfoldable pub check_pack : Language → Dict Json → ℕ → Dict Json → Result CodeqlError (ℕ × ℕ)
  unfolding index_rules check_results required sorted get
  check_pack language run component_index component = elim (as_list (get component "rules")) [
    | none ↦ err no_rules
    | some [] ↦ err no_rules
    | some (rule ∷ rules) ↦ index_rules 0 (rule ∷ rules) [] >>= λ table.
        let missing = select (λ rid. not (has_key table rid)) (required language) in
        reject_if (not (is_empty missing)) (reduced_rules (sorted missing))
        >> (elim (as_list (get run "results")) [
          | none ↦ err no_results
          | some results ↦ check_results table component_index results >>= λ high.
              reject_if (not (is_empty high)) (high_findings high)
              >> ok (length results, length (rule ∷ rules))
        ])
  ]

-- The extensions with the name, with their indices.
unfoldable pub packs_named : String → ℕ → List Json → List (ℕ × Dict Json)
unfolding get
packs_named name index [] = []
packs_named name index (x ∷ xs) =
    let rest = packs_named name (suc index) xs in
    elim (as_dict x) [
      | none ↦ rest
      | some d ↦ if equals_text (get d "name") name then (index, d) ∷ rest else rest
    ]
