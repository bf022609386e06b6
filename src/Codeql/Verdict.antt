-- ===== src/Codeql/Verdict.antt =====
-- `check`: one SARIF file against the language and the candidate.
use oxide_batch_workloads.Base.{
  ℕ, String, ◌<>◌, Bool, not, ◌&&◌, ◌||◌, Option, none, some, List, [], ◌∷◌, length, nat_eq,
  contains, if◌then◌else◌,
}
use oxide_batch_workloads.Base.Dict.{Dict}
use oxide_batch_workloads.Base.Json.{Json, get, as_dict, as_list, hashable}
use oxide_batch_workloads.Base.Text.{is_lower_hex}
use oxide_batch_workloads.Base.Result.{Result, ok, err, ◌>>=◌, ◌>>◌, require}
use oxide_batch_workloads.Codeql.{
  Language, language_text, language_of, pack, CodeqlError, unexpected_language, wrong_sha,
  wrong_file_count, not_json, wrong_version, wrong_run_count, not_codeql, wrong_category, no_packs,
  wrong_pack_count, attribute_error, type_error,
}
use oxide_batch_workloads.Codeql.Rules.{required}
use oxide_batch_workloads.Codeql.Coverage.{equals_text, get_path, coverage}
use oxide_batch_workloads.Codeql.Findings.{Scores, packs_named, check_pack}

-- Each text once.
unfoldable pub unique : List String → List String
unique [] = []
unique (x ∷ xs) = let rest = unique xs in if contains xs x then rest else x ∷ rest

-- A file below the directory whose name ends in .sarif.
pub record SarifFile : Type 0 where
  pub is_file : Bool
  pub size : ℕ
  pub content : Option Json
  pub digest : String

pub record Report : Type 0 where
  pub candidate_sha : String
  pub language : String
  pub sarif_sha256 : String
  pub results : ℕ
  pub rules : ℕ
  pub required_security_rules : ℕ
  pub extracted_files : ℕ
  pub expected_source_files : ℕ
  pub high_or_critical : ℕ

-- `run.get("tool", {}).get("driver", {}).get("name") != "CodeQL"`, and the category.
unfoldable pub check_tool : Language → Dict Json → Result CodeqlError (Unit {0})
unfolding get_path language_text
check_tool language run = elim (get_path run ("tool" ∷ "driver" ∷ []) "name") [
  | none ↦ err attribute_error
  | some name ↦
      require (equals_text name "CodeQL") not_codeql
      >> (elim (get_path run ("automationDetails" ∷ []) "id") [
        | none ↦ err attribute_error
        | some category ↦
            let wanted : String = "/language:" <> language_text language in
            require (hashable category) type_error
            >> require (equals_text category wanted || equals_text category (wanted <> "/"))
                wrong_category
      ])
]

-- The only extension that is the language's query pack.
unfoldable pub find_pack : Language → Dict Json → Result CodeqlError (ℕ × Dict Json)
unfolding get_path packs_named pack
find_pack language run = elim (get_path run ("tool" ∷ []) "extensions") [
  | none ↦ err attribute_error
  | some j ↦ elim (as_list j) [
    | none ↦ err no_packs
    | some extensions ↦ elim (packs_named (pack language) 0 extensions) [
      | [] ↦ err wrong_pack_count
      | p ∷ [] ↦ ok p
      | p ∷ q ∷ ps ↦ err wrong_pack_count
    ]
  ]
]

-- The only run of the document.
unfoldable pub only_run : Json → Result CodeqlError (Dict Json)
unfolding get
only_run document = elim (as_dict document) [
  | none ↦ err wrong_version
  | some d ↦
      require (equals_text (get d "version") "2.1.0") wrong_version
      >> (elim (as_list (get d "runs")) [
        | some (j ∷ []) ↦ elim (as_dict j) [ none ↦ err wrong_run_count | some run ↦ ok run ]
        | some [] ↦ err wrong_run_count
        | some (j ∷ k ∷ js) ↦ err wrong_run_count
        | none ↦ err wrong_run_count
      ])
]

-- The only file, parsed.
unfoldable pub only_file : List SarifFile → Result CodeqlError (SarifFile × Json)
only_file (f ∷ []) =
    require (f.is_file && not (nat_eq f.size 0)) wrong_file_count
    >> (elim f.content [ none ↦ err not_json | some document ↦ ok (f, document) ])
only_file [] = err wrong_file_count
only_file (f ∷ g ∷ fs) = err wrong_file_count

module _ {S : Type 0} (s : Scores S) where
  -- `check` below the choice of the run.
  unfoldable pub check_run : String → Language → String → Dict Json → Result CodeqlError Report
  unfolding check_tool coverage find_pack check_pack unique required
  check_run candidate_sha language digest run = do
    check_tool language run
    files ← coverage run language
    component ← find_pack language run
    counts ← check_pack s language run component.0 component.1
    ok (record {
      candidate_sha = candidate_sha;
      language = language_text language;
      sarif_sha256 = digest;
      results = counts.0;
      rules = counts.1;
      required_security_rules = length (required language);
      extracted_files = length (unique files.0);
      expected_source_files = length (unique files.1);
      high_or_critical = 0;
    })

  unfoldable pub check : List SarifFile → String → String → Result CodeqlError Report
  unfolding check_run only_run only_file language_of is_lower_hex
  check files language candidate_sha = elim (language_of language) [
    | none ↦ err unexpected_language
    | some l ↦ do
      require (is_lower_hex 40 candidate_sha) wrong_sha
      file ← only_file files
      run ← only_run file.1
      check_run candidate_sha l file.0.digest run
  ]

  -- The exit status of `main`; an AttributeError is not caught and ends with 1 as well.
  unfoldable pub main : List SarifFile → String → String → ℕ
  unfolding check
  main files language candidate_sha = elim (check files language candidate_sha) [
    | err e ↦ 1
    | ok verdict ↦ 0
  ]
