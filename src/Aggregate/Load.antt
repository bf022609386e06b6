-- ===== src/Aggregate/Load.antt =====
-- The reading half of aggregate_verdict.py: `load_results` and `_load_expected`. The JSON parser
-- and the file system are not modelled: a file comes with the value that `json.loads` gave.
use oxide_batch_workloads.Base.{
  String, Bool, true, not, ◌==◌, Option, none, some, List, [], ◌∷◌, select, is_empty, contains,
  if◌then◌else◌,
}
use oxide_batch_workloads.Base.Dict.{Dict, has_key}
use oxide_batch_workloads.Base.Json.{Json, get, as_dict, as_list, as_str}
use oxide_batch_workloads.Base.Result.{Result, ok, err, ◌>>=◌, traverse}
use oxide_batch_workloads.Aggregate.{
  ExpectedShard, ShardResult, ParseError, unreadable, root_not_object, missing_keys, invalid_status,
  valid_statuses, valid_outcomes, expected_outcome_for,
}

-- A `*.json` file below the results directory: its name, and its value unless it cannot be read
-- or is no JSON.
pub record ResultFile : Type 0 where
  pub name : String
  pub content : Option Json

-- `TypeError`: a list or a dict was looked up in a set, or a workload is no text. The last is
-- found later in the source, where workloads are grouped, sorted and compared as texts.
pub data TypeError : Type 0 where
  unhashable bad_workload : TypeError

-- What one round of the loop does: `continue` silently, add an error, or add a result.
pub data Loaded : Type 0 where
  skipped : Loaded
  malformed_file : ParseError → Loaded
  loaded : ShardResult → Loaded

-- `j not in names`, for a set of texts.
unfoldable pub not_among : Json → List String → Result TypeError Bool
not_among (Json.arr js) names = err unhashable
not_among (Json.obj fs) names = err unhashable
not_among (Json.str s) names = ok (not (contains names s))
not_among j names = ok true

-- `j != s`
unfoldable pub differs : Json → String → Bool
differs (Json.str t) s = not (t == s)
differs j s = true

-- The required keys, in the order in which a message lists them.
abbrev pub required_keys : List String
required_keys = "outcome" ∷ "stage" ∷ "status" ∷ "workload" ∷ []

unfoldable pub text_of : Json → Result TypeError String
text_of (Json.str s) = ok s
text_of j = err bad_workload

-- The text of a value that was found in a set of texts.
abbrev pub member_text : Json → String
member_text (Json.str s) = s
member_text j = ""

unfoldable pub load_record : String → String → Dict Json → Result TypeError Loaded
unfolding not_among text_of get
load_record name stage d = not_among (get d "status") valid_statuses >>= λ bad_status.
    (if bad_status then ok true else not_among (get d "outcome") valid_outcomes) >>= λ bad.
    if bad
    then ok (malformed_file (invalid_status name))
    else text_of (get d "workload") >>= λ workload. ok (
        loaded (record {
          workload = workload;
          stage = stage;
          status = member_text (get d "status");
          outcome = member_text (get d "outcome");
          source = name;
        }))

-- One round of the loop of `load_results`.
unfoldable pub load_file : String → ResultFile → Result TypeError Loaded
unfolding load_record differs get
load_file stage file = elim file.content [
  | none ↦ ok (malformed_file (unreadable file.name))
  | some j ↦ elim (as_dict j) [
    | none ↦ ok (malformed_file (root_not_object file.name))
    | some d ↦
        let missing = select (λ k. not (has_key d k)) required_keys in
        if not (is_empty missing)
        then ok (malformed_file (missing_keys file.name missing))
        else if differs (get d "stage") stage
        then ok skipped
        else load_record file.name stage d
  ]
]

abbrev pub add_loaded :
    Loaded → List ShardResult × List ParseError → List ShardResult × List ParseError
add_loaded skipped (rs, es) = (rs, es)
add_loaded (malformed_file e) (rs, es) = (rs, e ∷ es)
add_loaded (loaded r) (rs, es) = (r ∷ rs, es)

unfoldable pub load_files :
    String → List ResultFile → Result TypeError (List ShardResult × List ParseError)
unfolding load_file
load_files stage [] = ok ([], [])
load_files stage (file ∷ files) =
    load_file stage file >>= λ l. load_files stage files >>= λ rest. ok (add_loaded l rest)

-- `none` is a directory that does not exist; else its files in the order of their paths.
unfoldable pub load_results :
    Option (List ResultFile) → String → Result TypeError (List ShardResult × List ParseError)
unfolding load_files
load_results none stage = ok ([], [])
load_results (some files) stage = load_files stage files

pub data ExpectedError : Type 0 where
  not_json missing_include malformed_entry attribute_error : ExpectedError

unfoldable pub expected_shard : String → Json → Result ExpectedError ExpectedShard
unfolding expected_outcome_for get
expected_shard stage entry = elim (as_dict entry) [
  | none ↦ err malformed_entry
  | some d ↦ elim (as_str (get d "name")) [
    | none ↦ err malformed_entry
    | some name ↦ elim (expected_outcome_for stage (get d "msrv")) [
      | none ↦ err attribute_error
      | some outcome ↦ ok (record { name = name; expected_outcome = outcome })
    ]
  ]
]

-- `matrix["include"]`, if that is a list.
unfoldable pub include_of : Json → Option (List Json)
unfolding get
include_of matrix = elim (as_dict matrix) [ none ↦ none | some d ↦ as_list (get d "include") ]

unfoldable pub load_expected : Option Json → String → Result ExpectedError (List ExpectedShard)
unfolding expected_shard include_of
load_expected none stage = err not_json
load_expected (some matrix) stage = elim (include_of matrix) [
  | none ↦ err missing_include
  | some entries ↦ traverse (expected_shard stage) entries
]
