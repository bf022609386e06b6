-- ===== src/Registry.antt =====
-- .github/scripts/validate-workload-registry.py: the canonical workload registry, workloads.json.
pub mod Msrv
pub mod Entry
pub mod Repository
pub mod Sound
pub mod Extends
pub mod Sorting
pub mod Reserved
pub mod Complete
use oxide_batch_workloads.Base.{
  ℕ, String, Bool, true, false, not, ◌&&◌, ◌||◌, ◌==◌, Option, none, some, List, [], ◌∷◌, all,
  select, length, contains, starts_with, nat_eq, if◌then◌else◌,
}
use oxide_batch_workloads.Base.Dict.{Dict, keys}
use oxide_batch_workloads.Base.Json.{Json, get, as_dict, as_str, equals_num}
use oxide_batch_workloads.Base.Text.{has_char, split_char}
use oxide_batch_workloads.Base.Result.{Result, ok, err}

pub data Kind : Type 0 where
  workload fixture reserved_project : Kind

-- The messages of `RegistryError`.
pub data RegistryError : Type 0 where
  missing_registry invalid_registry root_not_object wrong_schema_version : RegistryError
  name_not_text path_not_text : RegistryError
  invalid_name : String → RegistryError
  not_top_level : Kind → String → RegistryError
  missing_manifest invalid_manifest missing_package blank_rust_version : String → RegistryError
  msrv_not_object declared_not_bool declared_extra_keys declared_without_version :
      String → RegistryError
  undeclared_wrong_keys blank_policy_reason undeclared_with_version : String → RegistryError
  missing_entrypoint not_executable : String → RegistryError
  wrong_entry_keys : Kind → RegistryError
  duplicate_name duplicate_path path_missing no_cargo_toml : String → RegistryError
  workloads_empty fixtures_not_list reserved_not_list reserved_wrong_keys : RegistryError
  reserved_blank_reason duplicate_reserved reserved_and_registered reserved_missing :
      String → RegistryError
  unregistered stale : List String → RegistryError

-- What a file holds: nothing there, no TOML, or the document as a value.
pub data Manifest : Type 0 where
  absent invalid : Manifest
  document : Dict Json → Manifest

-- The repository's root as the script sees it: is `root / path` a directory, its `Cargo.toml`, the
-- mode of its `ci/validate` if that is a file, and the names that `root.iterdir()` lists.
pub record Root : Type 0 where
  pub is_dir : String → Bool
  pub manifest : String → Manifest
  pub entrypoint : String → Option ℕ
  pub children : List String

unfoldable pub has_manifest : Manifest → Bool
has_manifest absent = false
has_manifest m = true

-- `set(d) == set(ks)`
unfoldable pub same_keys : Dict Json → List String → Bool
same_keys d ks = all (contains ks) (keys d) && all (contains (keys d)) ks

abbrev pub schema_version : ℕ
schema_version = 3

-- The content of workloads.json: no file, no JSON, or a value.
pub data RegistryFile : Type 0 where
  no_file no_json : RegistryFile
  value : Json → RegistryFile

unfoldable pub load_registry : RegistryFile → Result RegistryError (Dict Json)
unfolding get
load_registry no_file = err missing_registry
load_registry no_json = err invalid_registry
load_registry (value j) = elim (as_dict j) [
  | none ↦ err root_not_object
  | some d ↦
      if equals_num (get d "schema_version") schema_version then ok d else err wrong_schema_version
]

unfoldable pub validate_name : Json → Result RegistryError String
unfolding has_char
validate_name j = elim (as_str j) [
  | none ↦ err name_not_text
  | some s ↦
      if s == ""
      then err name_not_text
      else if has_char b'/' s || (s == "." || s == "..")
      then err (invalid_name s)
      else ok s
]

-- `Path(s).parts` without the root: empty parts and "." are dropped.
unfoldable pub path_parts : String → List String
unfolding split_char
path_parts s = select (λ p. not (p == "" || p == ".")) (split_char b'/' s)

-- One part that is not "..", and no root.
abbrev pub is_single : List String → Bool
is_single (p ∷ []) = not (p == "." || p == "..")
is_single ps = false

unfoldable pub is_top_level : String → Bool
unfolding path_parts
is_top_level s = not (starts_with s "/") && is_single (path_parts s)

unfoldable pub validate_top_level_path : Json → Kind → Result RegistryError String
unfolding is_top_level
validate_top_level_path j kind = elim (as_str j) [
  | none ↦ err path_not_text
  | some s ↦
      if s == ""
      then err path_not_text
      else if is_top_level s
      then ok s
      else err (not_top_level kind s)
]
