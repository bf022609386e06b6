-- ===== src/Evidence.antt =====
-- .github/scripts/validate-evidence.py: the checks on the fields of an evidence manifest.
pub mod Closure
pub mod Selected
pub mod Recorded
pub mod Validated
pub mod Safe
pub mod Represented
pub mod Listed
pub mod Sections
pub mod Records
pub mod Retention
pub mod Subject
pub mod Manifest
pub mod Kept
pub mod Retained
use oxide_batch_workloads.Base.{
  ℕ, String, ◌<>◌, Bool, true, false, not, ◌&&◌, ◌||◌, ◌==◌, Option, none, some, List, [], ◌∷◌,
  contains, starts_with, if◌then◌else◌,
}
use oxide_batch_workloads.Base.Dict.{Dict}
use oxide_batch_workloads.Base.Json.{Json, as_dict, as_str}
use oxide_batch_workloads.Base.Text.{is_blank, is_lower_hex}
use oxide_batch_workloads.Base.Result.{Result, ok, err, ◌>>=◌}
use oxide_batch_workloads.Registry.{same_keys, path_parts}

-- The name of a field as the messages print it: `section`, or `section[index]member`.
pub data Field : Type 0 where
  plain : String → Field
  item : String → ℕ → String → Field

-- The messages of `EvidenceError`.
pub data EvidenceError : Type 0 where
  wrong_keys empty_string wrong_hex unsafe_path : Field → EvidenceError
  no_entries not_sorted no_includes duplicate_includes no_excluded duplicate_excluded
        wrong_algorithm :
      EvidenceError
  wrong_excluded manifest_included unrepresented no_history wrong_producer : EvidenceError
  duplicate_path unmatched_selector missing_selector : String → EvidenceError
  irregular_mode : Field → EvidenceError
  outside_includes : Field → String → EvidenceError
  leaked : List String → EvidenceError
  wrong_digest : String → String → EvidenceError
  git_failed : String → EvidenceError

unfoldable pub require_keys : Json → List String → Field → Result EvidenceError (Dict Json)
unfolding same_keys
require_keys value expected f = elim (as_dict value) [
  | none ↦ err (wrong_keys f)
  | some d ↦ if same_keys d expected then ok d else err (wrong_keys f)
]

unfoldable pub require_string : Json → Field → Result EvidenceError String
unfolding is_blank
require_string value f = elim (as_str value) [
  | none ↦ err (empty_string f)
  | some s ↦ if is_blank s then err (empty_string f) else ok s
]

-- The patterns HEX40 and HEX64 are `is_lower_hex` of their length.
unfoldable pub require_hex : Json → ℕ → Field → Result EvidenceError String
unfolding is_lower_hex
require_hex value digits f = elim (as_str value) [
  | none ↦ err (wrong_hex f)
  | some s ↦ if is_lower_hex digits s then ok s else err (wrong_hex f)
]

-- `Path(…).as_posix()` of a relative path, from its parts.
unfoldable pub join_parts : List String → String
join_parts [] = "."
join_parts (p ∷ []) = p
join_parts (p ∷ q ∷ ps) = p <> ("/" <> join_parts (q ∷ ps))

unfoldable pub safe_path : Json → Field → Result EvidenceError String
unfolding require_string path_parts join_parts
safe_path value f = require_string value f >>= λ s.
    (if starts_with s "/" || contains (path_parts s) ".."
      then err (unsafe_path f)
      else ok (join_parts (path_parts s)))
