-- ===== src/Preflight.antt =====
-- tools/ci/release_codeql_preflight.py: a commit is released only with a CodeQL analysis of its own.
-- What GitHub, the downloads and the clock answer are parameters.
pub mod Effects
pub mod Metadata
pub mod Checks
pub mod Inspect
pub mod Discover
pub mod Live
pub mod Reads
pub mod Bounded
pub mod Once
pub mod Answers
pub mod Verified
pub mod Released
pub mod Evidence
use Prim.Native.Char.{Char, code}
use oxide_batch_workloads.Base.{
  ℕ, ◌+◌, String, Bool, true, false, not, ◌&&◌, ◌||◌, ◌==◌, ◌<>◌, Option, none, some, List, [], ◌∷◌,
  leb, nat_eq, if◌then◌else◌,
}
use oxide_batch_workloads.Base.Dict.{Dict, lookup}
use oxide_batch_workloads.Base.Json.{Json, get, as_dict, truthy}
use oxide_batch_workloads.Base.Text.{is_lower_hex, split_char, all_chars}
use oxide_batch_workloads.Base.Result.{Result, ok, err}
use oxide_batch_workloads.Codeql.Coverage.{equals_text}
use oxide_batch_workloads.Preflight.Effects.{Act, lift, returns, ◌>>=◌, ◌>>◌}

-- The messages of `reject`, the errors of a program that fails or prints no JSON, those of Python
-- itself, and the two errors that wrap another.
pub data PreflightError : Type 0 where
  non_object invalid_candidate malformed_main not_reachable inactive_workflow : PreflightError
  invalid_runs malformed_run exhausted untrusted_run invalid_creation future_scan : PreflightError
  bad_jobs bad_listing bad_artifact malformed_artifact unknown_expiry missing_evidence :
      PreflightError
  changed_identity malformed_tree ambiguous_manifest provenance_mismatch missing_token :
      PreflightError
  ambiguous_rerun ambiguous_active failed_existing active_and_completed ambiguous_dispatch :
      PreflightError
  concurrent_active failed_during_refresh concurrent_extra timed_out_discovery : PreflightError
  called_process no_json attribute_error key_error type_error : PreflightError
  changed_selected ambiguous_selected timed_out_run : Json → PreflightError
  ended : Json → Json → PreflightError
  invalid_completed failed_polling : Json → PreflightError → PreflightError

abbrev pub languages : List String
languages = "actions" ∷ "python" ∷ "rust" ∷ "java-kotlin" ∷ []

abbrev pub workflow_path : String
workflow_path = ".github/workflows/codeql.yml"

-- What is asked of the API, by its path below the repository.
pub data Request : Type 0 where
  main_ref : Request
  compare : String → String → Request
  codeql_workflow : Request
  runs : String → ℕ → Request
  run jobs artifacts : Json → Request
  commit : String → Request

-- What `gh` prints: it exits with an error, it prints no JSON, or it prints a value.
pub data Reply : Type 0 where
  failed no_value : Reply
  answer : Json → Reply

-- What `datetime.fromisoformat` makes of a text: it raises, there is no time zone, or a moment.
pub data Creation : Type 0 where
  no_time naive : Creation
  at_moment : ℕ → Creation

-- A directory that an artifact is downloaded to: the files named source-identity.json, each as its
-- value or none where it is no JSON, and whether the verdict script exits with 0 for a language.
pub record Download : Type 0 where
  pub identities : List (Option Json)
  pub passes : String → Bool

-- The world outside of the script. `W` is its state.
pub record Outside (W : Type 0) : Type 0 where
  pub gh_get : Request → W → Reply × W
  -- POST …/dispatches: whether `gh` exits with 0.
  pub gh_dispatch : W → Bool × W
  -- `gh run download` of an artifact of a run, if it exits with 0.
  pub download : Json → String → W → Option Download × W
  pub fromisoformat : String → Creation
  -- `datetime.now`, `time.monotonic` and `time.sleep`.
  pub now : W → ℕ
  pub monotonic : W → ℕ
  pub sleep : ℕ → W → W

-- The state of a run of the script: the dispatches it has asked for, and the world.
pub record State (W : Type 0) : Type 0 where
  pub dispatches : ℕ
  pub world : W

-- The arguments of the script.
pub record Candidate : Type 0 where
  pub repo : String
  pub sha : String

abbrev pub is_sha : String → Bool
is_sha s = is_lower_hex 40 s

abbrev is_slug_char : Char → Bool
is_slug_char c =
    let n = code c in
    (leb 48 n && leb n 57)
    || ((leb 65 n && leb n 90)
        || ((leb 97 n && leb n 122) || (nat_eq n b'_' || (nat_eq n b'.' || nat_eq n b'-'))))

abbrev is_slug_part : String → Bool
is_slug_part s = not (s == "") && all_chars is_slug_char s

-- A full match of `[A-Za-z0-9_.-]+/[A-Za-z0-9_.-]+`.
unfoldable pub is_repo : String → Bool
unfolding split_char all_chars
is_repo s = elim (split_char b'/' s) [
  | [] ↦ false
  | owner ∷ [] ↦ false
  | owner ∷ repo ∷ [] ↦ is_slug_part owner && is_slug_part repo
  | owner ∷ repo ∷ more ∷ parts ↦ false
]

-- `d.get(k, {}).get(j)`
unfoldable pub get_in : Dict Json → String → String → Result PreflightError Json
unfolding get lookup
get_in d k j = elim (lookup k d) [
  | none ↦ ok Json.null
  | some inner ↦ elim (as_dict inner) [ none ↦ err attribute_error | some e ↦ ok (get e j) ]
]

-- `(d.get(k) or {}).get(j)`
unfoldable pub get_or_in : Dict Json → String → String → Result PreflightError Json
unfolding get
get_or_in d k j =
    if truthy (get d k)
    then (elim (as_dict (get d k)) [ none ↦ err attribute_error | some e ↦ ok (get e j) ])
    else ok Json.null

-- `d[k]`
unfoldable pub item : Dict Json → String → Result PreflightError Json
unfolding lookup
item d k = elim (lookup k d) [ none ↦ err key_error | some j ↦ ok j ]

-- `isinstance(j, int)`, which holds of True and False. The ids of GitHub are not negative.
abbrev pub is_int : Json → Bool
is_int (Json.num n) = true
is_int (Json.bool b) = true
is_int j = false

abbrev pub is_sha_text : Json → Bool
is_sha_text (Json.str s) = is_sha s
is_sha_text j = false

abbrev pub has_text_at : Dict Json → String → String → Bool
has_text_at d k s = equals_text (get d k) s

abbrev answered : Reply → Result PreflightError (Dict Json)
answered failed = err called_process
answered no_value = err no_json
answered (answer j) = elim (as_dict j) [ none ↦ err non_object | some d ↦ ok d ]

module _ {W : Type 0} (g : Outside W) where
  unfoldable pub api : Request → Act (State W) PreflightError (Dict Json)
  api r s = (
    answered ((g.gh_get r s.world).0),
    record { dispatches = s.dispatches; world = (g.gh_get r s.world).1 },
  )

  unfoldable pub dispatch : Act (State W) PreflightError (Unit {0})
  dispatch s = (
    (if (g.gh_dispatch s.world).0 then ok tt else err called_process),
    record { dispatches = s.dispatches + 1; world = (g.gh_dispatch s.world).1 },
  )

-- `workflow`, of the answer.
unfoldable pub check_workflow : Dict Json → Result PreflightError (Dict Json)
unfolding get
check_workflow d =
    if is_int (get d "id")
      && (equals_text (get d "path") workflow_path && equals_text (get d "state") "active")
    then ok d
    else err inactive_workflow
