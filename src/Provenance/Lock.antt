-- ===== src/Provenance/Lock.antt =====
-- The lock files of workloads and fixtures, and the manifests of fixtures.
use oxide_batch_workloads.Base.{
  String, Bool, false, ◌&&◌, ◌==◌, Option, none, some, List, [], ◌∷◌, contains, text_leb,
  if◌then◌else◌,
}
use oxide_batch_workloads.Base.Dict.{Dict, lookup}
use oxide_batch_workloads.Base.Json.{Json, get, as_dict, as_list, as_str, hashable}
use oxide_batch_workloads.Base.Text.{is_lower_hex}
use oxide_batch_workloads.Base.Result.{Result, ok, err, ◌>>=◌, ◌>>◌, reject_if, require}
use oxide_batch_workloads.Registry.{Manifest, absent, invalid, document}
use oxide_batch_workloads.Provenance.{
  ProvenanceError, missing_manifest, invalid_manifest, missing_lockfile, invalid_lockfile,
  no_packages, wrong_package_count, bad_source, bad_checksum, type_error, fixture_dependency,
  fixture_package, is_first_party, dependency_package, iter_dependency_tables,
}

abbrev pub crates_io_sources : List String
crates_io_sources =
    "registry+https://github.com/rust-lang/crates.io-index" ∷ "sparse+https://index.crates.io/" ∷ []

abbrev is_str : Json → String → Bool
is_str j s = elim (as_str j) [ none ↦ false | some t ↦ t == s ]

-- `by_name_version.get((name, version), [])`
unfoldable pub packages_of : List Json → String → String → List (Dict Json)
unfolding get
packages_of [] name version = []
packages_of (j ∷ js) name version =
    let rest = packages_of js name version in
    elim (as_dict j) [
      | none ↦ rest
      | some d ↦
          if is_str (get d "name") name && is_str (get d "version") version then d ∷ rest else rest
    ]

abbrev pub is_canonical : Json → Bool
is_canonical source = elim (as_str source) [ none ↦ false | some s ↦ contains crates_io_sources s ]

abbrev pub is_checksum : Json → Bool
is_checksum checksum = elim (as_str checksum) [ none ↦ false | some s ↦ is_lower_hex 64 s ]

-- The checks on the only package of a subject.
unfoldable pub check_package : String → Dict Json → Result ProvenanceError (Unit {0})
unfolding get is_lower_hex
check_package name d = do
  require (hashable (get d "source")) type_error
  require (is_canonical (get d "source")) (bad_source name)
  require (is_checksum (get d "checksum")) (bad_checksum name)

unfoldable pub check_locked : List Json → String × String → Result ProvenanceError (Unit {0})
unfolding packages_of check_package
check_locked packages (name, version) = elim (packages_of packages name version) [
  | [] ↦ err (wrong_package_count name)
  | d ∷ [] ↦ check_package name d
  | d ∷ e ∷ ds ↦ err (wrong_package_count name)
]

unfoldable pub insert_subject : String × String → Dict String → Dict String
insert_subject s [] = s ∷ []
insert_subject s (t ∷ ts) =
    let later = t ∷ insert_subject s ts in if text_leb s.0 t.0 then s ∷ t ∷ ts else later

-- `sorted(subjects.items())`; the names are distinct.
unfoldable pub sort_subjects : Dict String → Dict String
unfolding insert_subject
sort_subjects [] = []
sort_subjects (s ∷ ss) = insert_subject s (sort_subjects ss)

unfoldable pub check_subjects : List Json → Dict String → Result ProvenanceError (Unit {0})
unfolding check_locked
check_subjects packages [] = ok tt
check_subjects packages (s ∷ ss) = check_locked packages s >> check_subjects packages ss

unfoldable pub lock_document : Dict Json → Dict String → Result ProvenanceError (Unit {0})
unfolding check_subjects sort_subjects get
lock_document d subjects = elim (as_list (get d "package")) [
  | none ↦ err no_packages
  | some packages ↦ check_subjects packages (sort_subjects subjects)
]

unfoldable pub validate_lockfile : Manifest → Dict String → Result ProvenanceError (Unit {0})
unfolding lock_document
validate_lockfile absent subjects = err missing_lockfile
validate_lockfile invalid subjects = err invalid_lockfile
validate_lockfile (document d) subjects = lock_document d subjects

-- One table of a fixture's manifest.
unfoldable pub check_fixture_table : Dict Json → Result ProvenanceError (Unit {0})
unfolding dependency_package
check_fixture_table [] = ok tt
check_fixture_table ((alias, spec) ∷ table) = dependency_package alias spec >>= λ dep.
    reject_if (is_first_party dep.package_name) (fixture_dependency dep.package_name)
    >> check_fixture_table table

unfoldable pub check_fixture_tables : List (Dict Json) → Result ProvenanceError (Unit {0})
unfolding check_fixture_table
check_fixture_tables [] = ok tt
check_fixture_tables (table ∷ tables) = check_fixture_table table >> check_fixture_tables tables

unfoldable pub validate_fixture_manifest : Manifest → Result ProvenanceError (Unit {0})
unfolding check_fixture_tables iter_dependency_tables
validate_fixture_manifest absent = err missing_manifest
validate_fixture_manifest invalid = err invalid_manifest
validate_fixture_manifest (document d) = check_fixture_tables (iter_dependency_tables d)

-- A package with a first-party name.
unfoldable pub is_first_party_package : Json → Bool
unfolding get
is_first_party_package j = elim (as_dict j) [
  | none ↦ false
  | some d ↦ elim (as_str (get d "name")) [ none ↦ false | some name ↦ is_first_party name ]
]

unfoldable pub check_fixture_packages : List Json → Result ProvenanceError (Unit {0})
unfolding is_first_party_package
check_fixture_packages [] = ok tt
check_fixture_packages (j ∷ js) =
    reject_if (is_first_party_package j) fixture_package >> check_fixture_packages js

-- `document.get("package", [])`, if that is a list.
unfoldable pub fixture_packages : Dict Json → Option (List Json)
unfolding lookup
fixture_packages d = elim (lookup "package" d) [ none ↦ some [] | some j ↦ as_list j ]

unfoldable pub validate_fixture_lockfile : Manifest → Result ProvenanceError (Unit {0})
unfolding fixture_packages check_fixture_packages
validate_fixture_lockfile absent = err missing_lockfile
validate_fixture_lockfile invalid = err invalid_lockfile
validate_fixture_lockfile (document d) = elim (fixture_packages d) [
  | none ↦ err no_packages
  | some packages ↦ check_fixture_packages packages
]
