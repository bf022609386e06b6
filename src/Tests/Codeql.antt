-- ===== src/Tests/Codeql.antt =====
-- A SARIF file of the Rust analysis with one result.
use oxide_batch_workloads.Base.{
  ◌≡◌, refl, ℕ, String, true, ◌==◌, none, some, List, [], ◌∷◌, map, sorted, leb, if◌then◌else◌,
}
use oxide_batch_workloads.Base.Dict.{Dict, lookup, insert}
use oxide_batch_workloads.Base.Json.{Json, obj, arr, object, array, get}
use oxide_batch_workloads.Base.Text.{ends_with, is_lower_hex}
use oxide_batch_workloads.Base.Result.{ok}
use oxide_batch_workloads.Codeql.{Language, rust, language_of, language_text, pack}
use oxide_batch_workloads.Codeql.Rules.{required, extraction}
use oxide_batch_workloads.Codeql.Coverage.{
  get_path, location_uri, location_uris, has_id, note_paths, notification_paths, expected_source,
  invocation_notes, collect_notes, note_id, has_error_level, check_note, check_notes, compare_paths,
  covered, coverage,
}
use oxide_batch_workloads.Codeql.Findings.{
  Scores, add_rule, index_rules, refers, properties, tags_of, scores_of, high_scores, check_scores,
  check_properties, check_result, check_results, check_pack, packs_named,
}
use oxide_batch_workloads.Codeql.Verdict.{
  SarifFile, Report, unique, check_tool, find_pack, check_run, only_run, only_file, check,
}
use oxide_batch_workloads.Codeql.Accepted.{IsAccepted, check-IsAccepted}

-- Tenths, for two literals.
abbrev tenths : Scores ℕ
tenths = record {
  float = λ j. elim j [
    | Json.str s ↦ if s == "5.0" then some 50 else if s == "8.0" then some 80 else none
    | Json.null ↦ none
    | Json.bool b ↦ none
    | Json.num n ↦ none
    | Json.whole n ↦ none
    | Json.number s ↦ none
    | Json.arr js ↦ none
    | Json.obj fs ↦ none
  ];
  in_range = λ v. leb v 100;
  is_high = λ v. leb 70 v;
}

abbrev dict : Dict Json → Json
dict d = obj (object d)

abbrev list : List Json → Json
list js = arr (array js)

abbrev rule : String → Json
rule rid = dict (
    ("id", Json.str rid)
    ∷ (
      "properties",
      dict (("tags", list (Json.str "security" ∷ [])) ∷ ("security-severity", Json.str "5.0") ∷ []),
    )
    ∷ [])

abbrev location : Json
location = dict (
    (
      "physicalLocation",
      dict (("artifactLocation", dict (("uri", Json.str "src/main.rs") ∷ [])) ∷ []),
    )
    ∷ [])

abbrev note : String → Json
note id =
    dict
      (("descriptor", dict (("id", Json.str id) ∷ [])) ∷ ("locations", list (location ∷ [])) ∷ [])

abbrev invocation : Json
invocation = dict (
    ("executionSuccessful", Json.bool true)
    ∷ (
      "toolExecutionNotifications",
      list (
          note "rust/diagnostics/successfully-extracted-files"
          ∷ note "cli/expected-extracted-files/rust"
          ∷ []),
    )
    ∷ [])

abbrev finding : Json
finding = dict (
    ("ruleId", Json.str "rust/xss")
    ∷ (
      "rule",
      dict (
          ("id", Json.str "rust/xss")
          ∷ ("index", Json.num 1)
          ∷ ("toolComponent", dict (("index", Json.num 0) ∷ []))
          ∷ []),
    )
    ∷ [])

unfoldable run : Dict Json
unfolding required
run =
    (
      "tool",
      dict (
          ("driver", dict (("name", Json.str "CodeQL") ∷ []))
          ∷ (
            "extensions",
            list (
                dict (
                  ("name", Json.str "codeql/rust-queries")
                  ∷ ("rules", list (map rule (required rust)))
                  ∷ [])
                ∷ []),
          )
          ∷ []),
    )
    ∷ ("automationDetails", dict (("id", Json.str "/language:rust/") ∷ []))
    ∷ ("invocations", list (invocation ∷ []))
    ∷ ("results", list (finding ∷ []))
    ∷ []

abbrev sarif : List SarifFile
sarif =
    record {
      is_file = true;
      size = 9;
      content = some (dict (("version", Json.str "2.1.0") ∷ ("runs", list (dict run ∷ [])) ∷ []));
      digest = "00";
    }
    ∷ []

abbrev sha : String
sha = "0123456789abcdef0123456789abcdef01234567"

abbrev report : Report
report = record {
  candidate_sha = sha;
  language = "rust";
  sarif_sha256 = "00";
  results = 1;
  rules = 17;
  required_security_rules = 17;
  extracted_files = 1;
  expected_source_files = 1;
  high_or_critical = 0;
}

accepted : check tenths sarif "rust" sha ≡ ok report
unfolding run required extraction language_of language_text pack get lookup insert ends_with
    is_lower_hex get_path location_uri location_uris has_id note_paths notification_paths
    expected_source invocation_notes collect_notes note_id has_error_level check_note check_notes
    compare_paths covered coverage add_rule index_rules refers properties tags_of scores_of
    high_scores check_scores check_properties check_result check_results check_pack packs_named
    unique check_tool find_pack check_run only_run only_file check sorted
accepted = refl

check-IsAccepted_example :
    (l : Language) × (file : SarifFile) × (document : Json) × (r : Dict Json) × (language_of "rust"
      ≡ some l)
    × (only_file sarif ≡ ok (file, document))
    × (only_run document ≡ ok r)
    × IsAccepted tenths l r
check-IsAccepted_example = check-IsAccepted tenths sarif "rust" sha report accepted
