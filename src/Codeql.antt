-- ===== src/Codeql.antt =====
-- .github/scripts/release-codeql-verdict.py: the SARIF file of a release candidate's CodeQL run.
pub mod Rules
pub mod Coverage
pub mod Findings
pub mod Verdict
pub mod Reported
pub mod Harmless
pub mod Accepted
use oxide_batch_workloads.Base.{
  String, Bool, true, false, ◌||◌, ◌==◌, Option, none, some, List, [], ◌∷◌, if◌then◌else◌,
}
use oxide_batch_workloads.Base.Json.{Json}

-- The languages of `LANGUAGES`.
pub data Language : Type 0 where
  actions python rust java_kotlin : Language

unfoldable pub language_text : Language → String
language_text actions = "actions"
language_text python = "python"
language_text rust = "rust"
language_text java_kotlin = "java-kotlin"

unfoldable pub language_of : String → Option Language
language_of s =
    if s == "actions"
    then some actions
    else if s == "python"
    then some python
    else if s == "rust"
    then some rust
    else if s == "java-kotlin"
    then some java_kotlin
    else none

unfoldable pub pack : Language → String
pack actions = "codeql/actions-queries"
pack python = "codeql/python-queries"
pack rust = "codeql/rust-queries"
pack java_kotlin = "codeql/java-queries"

-- The exceptions: the messages of `reject`, and the types of the others.
pub data CodeqlError : Type 0 where
  unexpected_language wrong_sha wrong_file_count not_json wrong_version wrong_run_count not_codeql
        wrong_category :
      CodeqlError
  no_invocations failed_invocation malformed_notifications malformed_notification extraction_warning
        extraction_error :
      CodeqlError
  tool_error : Json → CodeqlError
  no_location invalid_uri no_expected no_actual : CodeqlError
  not_extracted : List String → CodeqlError
  no_packs wrong_pack_count no_rules wrong_rule_id no_results malformed_properties malformed_tags :
      CodeqlError
  reduced_rules : List String → CodeqlError
  unknown_rule : Json → CodeqlError
  wrong_reference no_severity unparseable_severity out_of_range : String → CodeqlError
  high_findings : List String → CodeqlError
  attribute_error type_error : CodeqlError
