-- ===== src/Synthesis.antt =====
-- .github/scripts/synthesize-msrv-not-applicable.py: not-applicable results for the entries that
-- declare no MSRV.
pub mod Laws
use oxide_batch_workloads.Base.{
  ℕ, String, ◌<>◌, Bool, true, false, not, ◌&&◌, ◌||◌, ◌==◌, Option, none, some, List, [], ◌∷◌,
  ◌++◌, map, is_empty, contains, is_none, is_some, if◌then◌else◌,
}
use oxide_batch_workloads.Base.Dict.{Dict, lookup}
use oxide_batch_workloads.Base.Json.{Json, get, as_dict, as_list, as_str, as_bool, obj, object}
use oxide_batch_workloads.Base.Text.{is_blank, has_char}
use oxide_batch_workloads.Base.Result.{Result, ok, err, ◌>>=◌, ◌>>◌, reject_if}
use oxide_batch_workloads.Aggregate.{ShardResult, ParseError}
use oxide_batch_workloads.Aggregate.Load.{ResultFile, TypeError, load_results, include_of}
use oxide_batch_workloads.Shard.{ShardArgs, ShardError, build_result}

pub data SynthesisError : Type 0 where
  not_json empty_include not_object : SynthesisError
  invalid_name : Json → SynthesisError
  duplicate_name malformed_policy missing_version unexpected_reason unexpected_version :
      String → SynthesisError
  missing_reason declared_entry collision : String → SynthesisError
  malformed_results : List ParseError → SynthesisError
  type_error : TypeError → SynthesisError
  shard_error : ShardError → SynthesisError

-- A validated entry: the fields that the rest of the script reads. The reason of a declared
-- entry is "" or absent.
pub record Entry : Type 0 where
  pub name : String
  pub declared : Bool
  pub reason : String

-- `j` as a text with something other than spaces.
unfoldable pub solid_text : Json → Option String
unfolding is_blank
solid_text j = elim (as_str j) [ none ↦ none | some s ↦ if is_blank s then none else some s ]

unfoldable pub is_null : Json → Bool
is_null Json.null = true
is_null j = false

-- `not name or "/" in name or name in {".", ".."}`
unfoldable pub bad_name : String → Bool
unfolding has_char
bad_name s = s == "" || (has_char b'/' s || (s == "." || s == ".."))

unfoldable pub parse_name : Json → Result SynthesisError String
unfolding bad_name
parse_name j = elim (as_str j) [
  | none ↦ err (invalid_name j)
  | some s ↦ if bad_name s then err (invalid_name j) else ok s
]

-- `reason in (None, "")`
unfoldable pub no_reason : Json → Bool
no_reason Json.null = true
no_reason (Json.str s) = s == ""
no_reason j = false

-- The rules on version and reason of one entry.
unfoldable pub parse_policy : String → Bool → Dict Json → Result SynthesisError Entry
unfolding solid_text no_reason is_null get
parse_policy name true msrv = do
  reject_if (is_none (solid_text (get msrv "version"))) (missing_version name)
  reject_if (not (no_reason (get msrv "policy_reason"))) (unexpected_reason name)
  ok (record { name = name; declared = true; reason = "" })
parse_policy name false msrv = do
  reject_if (not (is_null (get msrv "version"))) (unexpected_version name)
  elim (solid_text (get msrv "policy_reason")) [
    | none ↦ err (missing_reason name)
    | some reason ↦ ok (record { name = name; declared = false; reason = reason })
  ]

-- `raw["msrv"]` as a dict with a Boolean `declared`.
unfoldable pub policy_of : Dict Json → Option (Bool × Dict Json)
unfolding get
policy_of d = elim (as_dict (get d "msrv")) [
  | none ↦ none
  | some msrv ↦ elim (as_bool (get msrv "declared")) [
    | none ↦ none
    | some declared ↦ some (declared, msrv)
  ]
]

-- The part of a round below the check of the name.
unfoldable pub parse_named :
    List String → String → Option (Bool × Dict Json) → Result SynthesisError Entry
unfolding parse_policy
parse_named seen name none =
    reject_if (contains seen name) (duplicate_name name) >> err (malformed_policy name)
parse_named seen name (some (declared, msrv)) =
    reject_if (contains seen name) (duplicate_name name) >> parse_policy name declared msrv

-- One round of the loop of `parse_entries`.
unfoldable pub parse_entry : List String → Json → Result SynthesisError Entry
unfolding parse_name policy_of parse_named get
parse_entry seen raw = elim (as_dict raw) [
  | none ↦ err not_object
  | some d ↦ parse_name (get d "name") >>= λ name. parse_named seen name (policy_of d)
]

unfoldable pub parse_loop : List String → List Json → Result SynthesisError (List Entry)
unfolding parse_entry
parse_loop seen [] = ok []
parse_loop seen (raw ∷ rest) =
    parse_entry seen raw >>= λ e. parse_loop (e.name ∷ seen) rest >>= λ es. ok (e ∷ es)

unfoldable pub parse_entries : Option Json → Result SynthesisError (List Entry)
unfolding include_of parse_loop
parse_entries none = err not_json
parse_entries (some matrix) = elim (include_of matrix) [
  | none ↦ err empty_include
  | some include ↦ if is_empty include then err empty_include else parse_loop [] include
]

abbrev pub synthetic_args : Entry → ShardArgs
synthetic_args e = record {
  workload = e.name;
  stage = "msrv";
  exit_code = none;
  not_applicable = true;
  reason = some e.reason;
}

unfoldable pub build_not_applicable_result : Entry → Result SynthesisError (Dict Json)
unfolding build_result
build_not_applicable_result e =
    if e.declared
    then err (declared_entry e.name)
    else elim (build_result (synthetic_args e)) [ ok d ↦ ok d | err x ↦ err (shard_error x) ]

-- A file that the script writes, by its path below the results directory.
abbrev pub output_path : String → String
output_path name = "synthetic-msrv-" <> name <> "/result.json"

pub record Written : Type 0 where
  pub path : String
  pub content : Dict Json

-- The loop of `synthesize`. The files written before an error stay, so they are returned too.
unfoldable pub write_loop :
    List String → List Entry → List Written × Result SynthesisError (Unit {0})
unfolding build_not_applicable_result
write_loop existing [] = ([], ok tt)
write_loop existing (e ∷ es) =
    let rest = write_loop (e.name ∷ existing) es in
    let later = write_loop existing es in
    if e.declared
    then later
    else if contains existing e.name
    then ([], err (collision e.name))
    else elim (build_not_applicable_result e) [
      | err x ↦ ([], err x)
      | ok d ↦ (record { path = output_path e.name; content = d } ∷ rest.0, rest.1)
    ]

abbrev pub workloads_of : List ShardResult → List String
workloads_of rs = map (λ (r : ShardResult). r.workload) rs

-- The part of `synthesize` below `load_results`.
unfoldable pub synthesize_onto :
    List Entry
    → List ShardResult × List ParseError
    → List Written × Result SynthesisError (Unit {0})
unfolding write_loop
synthesize_onto entries (existing, errors) =
    if is_empty errors
    then write_loop (workloads_of existing) entries
    else ([], err (malformed_results errors))

unfoldable pub synthesize :
    Option Json → Option (List ResultFile) → List Written × Result SynthesisError (Unit {0})
unfolding parse_entries load_results synthesize_onto
synthesize matrix files = elim (parse_entries matrix) [
  | err x ↦ ([], err x)
  | ok entries ↦ elim (load_results files "msrv") [
    | err x ↦ ([], err (type_error x))
    | ok loaded ↦ synthesize_onto entries loaded
  ]
]

-- `main`: the exit status, and the files written. A TypeError is not caught and ends with 1 too.
unfoldable pub main : Option Json → Option (List ResultFile) → ℕ × List Written
unfolding synthesize
main matrix files =
    let (written, outcome) = synthesize matrix files in
    elim outcome [ err e ↦ (1, written) | ok u ↦ (0, written) ]
