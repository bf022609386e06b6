-- ===== src/Codeql/Accepted.antt =====
-- What an accepted SARIF file guarantees.
use oxide_batch_workloads.Base.{
  ℕ, suc, ◌≡◌, refl, sym, ap, ◌∙◌, String, Bool, true, false, not, ◌&&◌, ◌||◌, some, List, [], ◌∷◌,
  is_empty, is_empty-select, any, all, contains, select, arith, eq_iff, Option-cases, inl, inr,
}
use oxide_batch_workloads.Base.Dict.{Dict, insert, has_key, has_key-insert}
use oxide_batch_workloads.Base.Json.{Json, get, as_dict, as_list, as_str}
use oxide_batch_workloads.Base.Text.{is_lower_hex}
use oxide_batch_workloads.Base.Result.{
  ok, >>=-eq-ok, >>-eq-ok, reject_if-eq-ok, require-eq-ok, ok_inj,
}
use oxide_batch_workloads.Codeql.{Language, actions, python, rust, java_kotlin, language_of}
use oxide_batch_workloads.Codeql.Rules.{required, extraction}
use oxide_batch_workloads.Codeql.Coverage.{
  equals_text, check_notes, notification_paths, expected_source, compare_paths, covered,
  collect_notes, coverage,
}
use oxide_batch_workloads.Codeql.Findings.{
  RuleTable, rule_id, add_rule, index_rules, Scores, check_results, check_pack,
}
use oxide_batch_workloads.Codeql.Verdict.{
  SarifFile, Report, check_tool, find_pack, check_run, only_run, only_file, check,
}
use oxide_batch_workloads.Codeql.Reported.{names_file, notification_paths-any}
use oxide_batch_workloads.Codeql.Harmless.{is_harmless, check_results-harmless}

abbrev pub has_rule : List Json → String → Bool
has_rule rules rid = any (λ rule. equals_text (rule_id rule) rid) rules

as_str-eq-some : (j : Json) (id : String) → as_str j ≡ some id → j ≡ Json.str id
as_str-eq-some (Json.str t) id e = ground arith
as_str-eq-some Json.null id e = absurd (ground arith)
as_str-eq-some (Json.bool b) id e = absurd (ground arith)
as_str-eq-some (Json.num n) id e = absurd (ground arith)
as_str-eq-some (Json.whole n) id e = absurd (ground arith)
as_str-eq-some (Json.number t) id e = absurd (ground arith)
as_str-eq-some (Json.arr js) id e = absurd (ground arith)
as_str-eq-some (Json.obj fs) id e = absurd (ground arith)

add_rule-has_key :
    (index : ℕ) (rule : Json) (table t : RuleTable) (rid : String)
    → add_rule index rule table ≡ ok t
    → has_key t rid ≡ (equals_text (rule_id rule) rid || has_key table rid)
unfolding add_rule
add_rule-has_key index rule table t rid h = elim (Option-cases (as_dict rule)) [
  | inl missing ↦ absurd (ground arith)
  | inr (d, is_dict) ↦ elim (Option-cases (as_str (get d "id"))) [
    | inl missing ↦ absurd (ground arith)
    | inr (id, named) ↦
        let inserted : insert id (index, d) table ≡ t = ground arith in
        let is_text : get d "id" ≡ Json.str id = as_str-eq-some (get d "id") id named in
        rw (is_dict, rule_id)
          (rw is_text (rw (← inserted) (has_key-insert id rid (index, d) table)))
  ]
]

index_rules-has_key :
    (index : ℕ) (rules : List Json) (table t : RuleTable) (rid : String)
    → index_rules index rules table ≡ ok t
    → has_key t rid ≡ (has_rule rules rid || has_key table rid)
unfolding index_rules
index_rules-has_key index [] table t rid h = rw (← (ok_inj h)) refl
index_rules-has_key index (rule ∷ rules) table t rid h =
    let (t', first, h1) = >>=-eq-ok (add_rule index rule table) _ h in
    ground (
      arith,
      index_rules-has_key (suc index) rules t' t rid h1,
      add_rule-has_key index rule table t' rid first,
    )

-- The notification that lists the files extracted, and the one that lists those expected.
abbrev pub extracted_files : Language → String
extracted_files actions = "actions/diagnostics/successfully-extracted-files"
extracted_files python = "py/diagnostics/successfully-extracted-files"
extracted_files java_kotlin = "java/diagnostics/successfully-extracted-files"
extracted_files rust = "rust/diagnostics/successfully-extracted-files"

abbrev pub expected_files : Language → String
expected_files actions = "cli/expected-extracted-files/actions"
expected_files python = "cli/expected-extracted-files/python"
expected_files java_kotlin = "cli/expected-extracted-files/java"
expected_files rust = "cli/expected-extracted-files/rust"

extraction-ids :
    (l : Language)
    → ((extraction l).actual ≡ extracted_files l) × ((extraction l).expected ≡ expected_files l)
unfolding extraction
extraction-ids actions = (refl, refl)
extraction-ids python = (refl, refl)
extraction-ids java_kotlin = (refl, refl)
extraction-ids rust = (refl, refl)

-- The files that a run reports for a language: those extracted, and those expected of it.
pub record HasFiles (run : Dict Json) (language : Language) (files : List String × List String)
    : Type 0 where
  pub invocations : List Json
  pub has_invocations : as_list (get run "invocations") ≡ some invocations
  pub notes : List Json
  pub collected : collect_notes invocations ≡ ok notes
  pub extracted :
      (p : String) → contains (files.0) p ≡ any (names_file (extracted_files language) p) notes
  pub expected :
      (p : String)
      → contains (files.1) p
        ≡ (any (names_file (expected_files language) p) notes && expected_source p language)

contains-select :
    (q : String → Bool) (xs : List String) (p : String)
    → contains (select q xs) p ≡ (contains xs p && q p)
contains-select q [] p = refl
contains-select q (x ∷ xs) p =
    ground (arith, contains-select q xs p, eq_iff x p, ap q {x = x} {y = p})

-- What the accepted run of a language has.
pub record IsAccepted {S : Type 0} (s : Scores S) (language : Language) (run : Dict Json)
    : Type 0 where
  pub actual : List String
  pub expected : List String
  pub has_files : HasFiles run language (actual, expected)
  pub some_expected : is_empty expected ≡ false
  pub extracted : all (contains actual) expected ≡ true
  pub component : ℕ × Dict Json
  pub is_pack : find_pack language run ≡ ok component
  pub rules : List Json
  pub has_rules : as_list (get component.1 "rules") ≡ some rules
  pub complete : all (has_rule rules) (required language) ≡ true
  pub table : RuleTable
  pub indexed : index_rules 0 rules [] ≡ ok table
  pub results : List Json
  pub has_results : as_list (get run "results") ≡ some results
  pub harmless : all (is_harmless s table component.0) results ≡ true

compare_paths-extracted :
    (actual expected : List String) (p : List String × List String)
    → compare_paths actual expected ≡ ok p
    → ((actual, expected) ≡ p)
      × (is_empty expected ≡ false)
      × (all (contains actual) expected ≡ true)
unfolding compare_paths
compare_paths-extracted actual expected p h =
    let (some_one, h1) = reject_if-eq-ok (is_empty expected) _ _ h in
    let (some_actual, h2) = reject_if-eq-ok (is_empty actual) _ _ h1 in
    let (none_missing, h3) =
      reject_if-eq-ok (not (is_empty (select (λ p. not (contains actual p)) expected))) _ _ h2 in
    (ok_inj h3, some_one, ground (arith, is_empty-select actual expected))

coverage-extracted :
    (run : Dict Json) (language : Language) (p : List String × List String)
    → coverage run language ≡ ok p
    → (is_empty p.1 ≡ false) × (all (contains p.0) p.1 ≡ true) × HasFiles run language p
unfolding coverage covered
coverage-extracted run language p h = elim (Option-cases (as_list (get run "invocations"))) [
  | inl missing ↦ absurd (ground arith)
  | inr ([], found) ↦ absurd (ground arith)
  | inr (i ∷ is, found) ↦
      let (notes, collected, h1) =
        >>=-eq-ok (collect_notes (i ∷ is)) (covered language) (ground arith) in
      let (fine, h2) = >>-eq-ok (check_notes (extraction language).warning notes) _ h1 in
      let (actual, found_actual, h3) =
        >>=-eq-ok (notification_paths notes (extraction language).actual) _ h2 in
      let (listed, found_listed, h4) =
        >>=-eq-ok (notification_paths notes (extraction language).expected) _ h3 in
      let (same, some_one, all_found) =
        compare_paths-extracted actual (select (λ p. expected_source p language) listed) p h4 in
      let (actual_id, expected_id) = extraction-ids language in
      rw (← same) (
        some_one,
        all_found,
        record {
          invocations = i ∷ is;
          has_invocations = found;
          notes = notes;
          collected = collected;
          extracted = λ p.
              notification_paths-any (extracted_files language) p notes actual
                (ap (notification_paths notes) (sym actual_id) ∙ found_actual);
          expected = λ p.
              contains-select (λ path. expected_source path language) listed p
              ∙ ap (λ b. b && expected_source p language)
                  (notification_paths-any (expected_files language) p notes listed
                    (ap (notification_paths notes) (sym expected_id) ∙ found_listed));
        },
      )
]

module _ {S : Type 0} (s : Scores S) where
  check_pack-IsAccepted :
      (language : Language) (run : Dict Json) (files : List String × List String)
      (component : ℕ × Dict Json) (counts : ℕ × ℕ)
      → coverage run language ≡ ok files
      → find_pack language run ≡ ok component
      → check_pack s language run component.0 component.1 ≡ ok counts
      → IsAccepted s language run
  unfolding check_pack
  check_pack-IsAccepted language run files component counts c p h =
      elim (Option-cases (as_list (get component.1 "rules"))) [
        | inl missing ↦ absurd (ground arith)
        | inr ([], found) ↦ absurd (ground arith)
        | inr (rule ∷ rules, found) ↦
            let (table, indexed, h1) =
              >>=-eq-ok (index_rules 0 (rule ∷ rules) []) _ (rw (found, check_pack) at h) in
            let (none_missing, h2) =
              reject_if-eq-ok
                (not (is_empty (select (λ rid. not (has_key table rid)) (required language)))) _ _
                h1 in
            elim (Option-cases (as_list (get run "results"))) [
              | inl missing ↦ absurd (ground arith)
              | inr (results, listed) ↦
                  let (high, checked, h3) =
                    >>=-eq-ok (check_results s table component.0 results) _ (rw listed at h2) in
                  let (none_high, h4) = reject_if-eq-ok (not (is_empty high)) _ _ h3 in
                  let (some_one, all_found, has_files) = coverage-extracted run language files c in
                  record {
                    actual = files.0;
                    expected = files.1;
                    has_files = has_files;
                    some_expected = some_one;
                    extracted = all_found;
                    component = component;
                    is_pack = p;
                    rules = rule ∷ rules;
                    has_rules = found;
                    complete =
                        required_rules (rule ∷ rules) table (required language) indexed
                          (ground arith);
                    table = table;
                    indexed = indexed;
                    results = results;
                    has_results = listed;
                    harmless =
                        check_results-harmless s table component.0 results high checked
                          (ground arith);
                  }
            ]
      ]
    where
      required_rules :
          (rules : List Json) (table : RuleTable) (rids : List String)
          → index_rules 0 rules [] ≡ ok table
          → is_empty (select (λ rid. not (has_key table rid)) rids) ≡ true
          → all (has_rule rules) rids ≡ true
      required_rules rules table [] i e = refl
      required_rules rules table (rid ∷ rids) i e =
          ground
            (arith, index_rules-has_key 0 rules [] table rid i, required_rules rules table rids i)

-- If `check` accepts, the language is known, the directory holds one SARIF file with one run, and
-- in that run every expected source file was extracted, some is expected, the language's query
-- pack has all required rules, and every result refers to a rule of the pack, has a score if that
-- is a security rule, and has only scores between 0 and 7, 7 excluded.
pub check-IsAccepted :
    {S : Type 0} (s : Scores S) (files : List SarifFile) (language candidate_sha : String)
    (report : Report)
    → check s files language candidate_sha ≡ ok report
    → (l : Language) × (file : SarifFile) × (document : Json) × (run : Dict Json) × (language_of
          language
        ≡ some l)
      × (only_file files ≡ ok (file, document))
      × (only_run document ≡ ok run)
      × IsAccepted s l run
unfolding check check_run
check-IsAccepted s files language candidate_sha report h =
    elim (Option-cases (language_of language)) [
      | inl missing ↦ absurd (ground arith)
      | inr (l, known) ↦
          let (is_sha, h1) =
            require-eq-ok (is_lower_hex 40 candidate_sha) _ _ (rw (known, check) at h) in
          let ((file, document), found, h2) = >>=-eq-ok (only_file files) _ h1 in
          let (run, one_run, h3) = >>=-eq-ok (only_run document) _ h2 in
          let (tool, h4) = >>-eq-ok (check_tool l run) _ h3 in
          let (covered_files, c, h5) = >>=-eq-ok (coverage run l) _ h4 in
          let (component, p, h6) = >>=-eq-ok (find_pack l run) _ h5 in
          let (counts, k, h7) = >>=-eq-ok (check_pack s l run component.0 component.1) _ h6 in
          (
            l,
            file,
            document,
            run,
            known,
            found,
            one_run,
            check_pack-IsAccepted s l run covered_files component counts c p k,
          )
    ]
