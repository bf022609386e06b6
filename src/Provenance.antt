-- ===== src/Provenance.antt =====
-- .github/scripts/validate-oxidebatch-provenance.py: the OxideBatch dependencies of the workloads
-- are exact published versions. A TOML file is absent, malformed, or a document as parsed.
pub mod Version
pub mod Lock
pub mod Repository
pub mod Subjects
pub mod Published
pub mod Accepted
use oxide_batch_workloads.Base.{
  String, Bool, true, false, not, ◌&&◌, ◌||◌, ◌==◌, Option, none, some, List, [], ◌∷◌, ◌++◌,
  is_empty, any, select, starts_with, is_none, if◌then◌else◌,
}
use oxide_batch_workloads.Base.Dict.{Dict, lookup, insert, has_key, keys}
use oxide_batch_workloads.Base.Json.{Json, get, as_dict, as_str}
use oxide_batch_workloads.Base.Text.{before_char, drop_first}
use oxide_batch_workloads.Base.Result.{Result, ok, err, ◌>>=◌, ◌>>◌, reject_if, require}
use oxide_batch_workloads.Registry.{Manifest, absent, invalid, document}
use oxide_batch_workloads.Provenance.Version.{is_exact_version}

-- The messages of `ProvenanceError`, and the TypeError of a list or a dict that a set is asked for.
pub data ProvenanceError : Type 0 where
  missing_manifest invalid_manifest missing_lockfile invalid_lockfile invalid_config :
      ProvenanceError
  source_replacement no_subject no_packages unreadable_registry no_workloads : ProvenanceError
  invalid_entry bad_fixtures type_error : ProvenanceError
  unsupported bad_package bad_version patched replaced no_version inexact : String → ProvenanceError
  forbidden_fields : String → List String → ProvenanceError
  conflicting bad_source bad_checksum wrong_package_count : String → ProvenanceError
  fixture_dependency : String → ProvenanceError
  fixture_package : ProvenanceError

abbrev pub is_first_party : String → Bool
is_first_party package_name =
    package_name == "oxide-batch" || starts_with package_name "oxide-batch-"

-- A set in the source, whose order is not fixed.
abbrev pub dependency_tables : List String
dependency_tables = "dependencies" ∷ "dev-dependencies" ∷ "build-dependencies" ∷ []

-- A dict under a key, if there is one.
unfoldable pub dict_at : Dict Json → String → Option (Dict Json)
unfolding get
dict_at d k = as_dict (get d k)

-- The tables of a document or of one target, in the order of the names.
unfoldable pub tables_in : Dict Json → List String → List (Dict Json)
unfolding dict_at
tables_in d [] = []
tables_in d (name ∷ names) =
    let rest = tables_in d names in
    elim (dict_at d name) [ none ↦ rest | some table ↦ table ∷ rest ]

unfoldable pub target_tables : Dict Json → List (Dict Json)
unfolding tables_in
target_tables [] = []
target_tables ((target, config) ∷ targets) =
    let rest = target_tables targets in
    elim (as_dict config) [ none ↦ rest | some d ↦ tables_in d dependency_tables ++ rest ]

unfoldable pub iter_dependency_tables : Dict Json → List (Dict Json)
unfolding tables_in target_tables dict_at
iter_dependency_tables d =
    tables_in d dependency_tables
    ++ (elim (dict_at d "target") [ none ↦ [] | some targets ↦ target_tables targets ])

pub record Dependency : Type 0 where
  pub package_name : String
  pub version : Option String
  pub detailed : Option (Dict Json)

-- The version of a detailed specification.
unfoldable pub version_of : String → Json → Result ProvenanceError (Option String)
version_of alias Json.null = ok none
version_of alias (Json.str v) = ok (some v)
version_of alias j = err (bad_version alias)

abbrev pub package_of : String → Dict Json → Json
package_of alias spec = elim (lookup "package" spec) [ none ↦ Json.str alias | some j ↦ j ]

unfoldable pub detailed_package : String → Dict Json → Result ProvenanceError Dependency
unfolding version_of lookup get
detailed_package alias spec = elim (as_str (package_of alias spec)) [
  | none ↦ err (bad_package alias)
  | some package_name ↦ do
    reject_if (package_name == "") (bad_package alias)
    version ← version_of alias (get spec "version")
    ok (record { package_name = package_name; version = version; detailed = some spec })
]

unfoldable pub dependency_package : String → Json → Result ProvenanceError Dependency
unfolding detailed_package
dependency_package alias (Json.str version) =
    ok (record { package_name = alias; version = some version; detailed = none })
dependency_package alias spec = elim (as_dict spec) [
  | none ↦ err (unsupported alias)
  | some d ↦ detailed_package alias d
]

-- The package that an entry of a patch table overrides.
unfoldable pub patched_package : String → Json → String
unfolding get
patched_package alias spec = elim (as_dict spec) [
  | none ↦ alias
  | some d ↦ elim (as_str (get d "package")) [ none ↦ alias | some package_name ↦ package_name ]
]

unfoldable pub check_patched : Dict Json → Result ProvenanceError (Unit {0})
unfolding patched_package
check_patched [] = ok tt
check_patched ((alias, spec) ∷ entries) =
    reject_if (is_first_party (patched_package alias spec)) (patched (patched_package alias spec))
    >> check_patched entries

unfoldable pub check_patch : Dict Json → Result ProvenanceError (Unit {0})
unfolding check_patched
check_patch [] = ok tt
check_patch ((registry, entries) ∷ registries) =
    (elim (as_dict entries) [ none ↦ ok tt | some d ↦ check_patched d ]) >> check_patch registries

unfoldable pub check_replace : List String → Result ProvenanceError (Unit {0})
unfolding before_char
check_replace [] = ok tt
check_replace (key ∷ ks) =
    reject_if (is_first_party (before_char b':' key)) (replaced (before_char b':' key))
    >> check_replace ks

abbrev pub forbidden_names : List String
forbidden_names = "git" ∷ "path" ∷ "registry" ∷ "workspace" ∷ []

-- The forbidden fields of a detailed specification, sorted.
abbrev pub forbidden : Option (Dict Json) → List String
forbidden none = []
forbidden (some d) = select (has_key d) forbidden_names

-- The check of a first-party dependency: the version without its "=".
unfoldable pub resolve : String → Dependency → Result ProvenanceError String
unfolding is_exact_version
resolve alias dep = do
  reject_if (not (is_empty (forbidden dep.detailed)))
      (forbidden_fields alias (forbidden dep.detailed))
  elim dep.version [
    | none ↦ err (no_version alias)
    | some v ↦ if is_exact_version v then ok (drop_first v) else err (inexact alias)
  ]

-- `subjects[package] = version`, if no other version is there.
unfoldable pub add_subject : Dict String → String → String → Result ProvenanceError (Dict String)
unfolding lookup insert
add_subject subjects package_name version = elim (lookup package_name subjects) [
  | none ↦ ok (insert package_name version subjects)
  | some previous ↦
      if previous == version
      then ok (insert package_name version subjects)
      else err (conflicting package_name)
]

-- One round of the inner loop of `validate_manifest`.
unfoldable pub add_dependency : Dict String → String → Json → Result ProvenanceError (Dict String)
unfolding dependency_package resolve add_subject
add_dependency subjects alias spec = dependency_package alias spec >>= λ dep.
    (if is_first_party dep.package_name
      then resolve alias dep >>= add_subject subjects dep.package_name
      else ok subjects)

unfoldable pub table_loop : Dict String → Dict Json → Result ProvenanceError (Dict String)
unfolding add_dependency
table_loop subjects [] = ok subjects
table_loop subjects ((alias, spec) ∷ table) =
    add_dependency subjects alias spec >>= λ more. table_loop more table

unfoldable pub tables_loop : Dict String → List (Dict Json) → Result ProvenanceError (Dict String)
unfolding table_loop
tables_loop subjects [] = ok subjects
tables_loop subjects (table ∷ tables) =
    table_loop subjects table >>= λ more. tables_loop more tables

-- The checks on `patch` and `replace`.
unfoldable pub check_overrides : Dict Json → Result ProvenanceError (Unit {0})
unfolding check_patch check_replace dict_at
check_overrides d =
    (elim (dict_at d "patch") [ none ↦ ok tt | some patch ↦ check_patch patch ])
    >> (elim (dict_at d "replace") [ none ↦ ok tt | some replace ↦ check_replace (keys replace) ])

-- `validate_manifest` on a parsed document.
unfoldable pub manifest_subjects : Dict Json → Result ProvenanceError (Dict String)
unfolding check_overrides tables_loop iter_dependency_tables
manifest_subjects d = do
  check_overrides d
  subjects ← tables_loop [] (iter_dependency_tables d)
  reject_if (is_empty subjects) no_subject
  ok subjects

unfoldable pub validate_manifest : Manifest → Result ProvenanceError (Dict String)
unfolding manifest_subjects
validate_manifest absent = err missing_manifest
validate_manifest invalid = err invalid_manifest
validate_manifest (document d) = manifest_subjects d
