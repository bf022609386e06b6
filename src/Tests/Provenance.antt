-- ===== src/Tests/Provenance.antt =====
-- A checkout with one workload that uses a published OxideBatch, and one fixture that uses none.
use oxide_batch_workloads.Base.{◌≡◌, refl, String, true, ◌==◌, all, List, [], ◌∷◌, if◌then◌else◌}
use oxide_batch_workloads.Base.Dict.{Dict, lookup, insert}
use oxide_batch_workloads.Base.Json.{Json, obj, arr, object, array, get}
use oxide_batch_workloads.Base.Text.{is_lower_hex}
use oxide_batch_workloads.Base.Result.{ok}
use oxide_batch_workloads.Registry.{value, absent, document, path_parts}
use oxide_batch_workloads.Provenance.{
  dict_at, tables_in, target_tables, iter_dependency_tables, version_of, detailed_package,
  dependency_package, resolve, add_subject, add_dependency, table_loop, tables_loop,
  check_overrides, manifest_subjects, validate_manifest,
}
use oxide_batch_workloads.Provenance.Version.{matches, is_exact_version}
use oxide_batch_workloads.Provenance.Lock.{
  packages_of, check_package, check_locked, insert_subject, sort_subjects, check_subjects,
  lock_document, validate_lockfile, check_fixture_table, check_fixture_tables,
  validate_fixture_manifest, is_first_party_package, check_fixture_packages, fixture_packages,
  validate_fixture_lockfile,
}
use oxide_batch_workloads.Provenance.Repository.{
  Checkout, check_config, validate_cargo_source_config, entry_paths, load_workloads,
  fixture_entries, load_fixtures, validate_workload, workload_loop, validate_fixture, fixture_loop,
  validate_repository,
}
use oxide_batch_workloads.Provenance.Published.{is_published}
use oxide_batch_workloads.Provenance.Accepted.{is_free, validate_repository-is_published}

abbrev dict : Dict Json → Json
dict d = obj (object d)

abbrev list : List Json → Json
list js = arr (array js)

abbrev entry : String → Json
entry path = dict (("path", Json.str path) ∷ [])

abbrev digest : String
digest = "0123456789abcdef0123456789abcdef0123456789abcdef0123456789abcdef"

abbrev locked_package : Json
locked_package = dict (
    ("name", Json.str "oxide-batch")
    ∷ ("version", Json.str "0.4.1")
    ∷ ("source", Json.str "sparse+https://index.crates.io/")
    ∷ ("checksum", Json.str digest)
    ∷ [])

abbrev checkout : Checkout
checkout = record {
  registry = value (
      dict
        (("workloads", list (entry "copy" ∷ [])) ∷ ("fixtures", list (entry "probe" ∷ [])) ∷ []));
  config_toml = λ dir. absent;
  config = λ dir. absent;
  manifest = λ dir.
      if dir == "copy"
      then document (
          ("dependencies", dict (("oxide-batch", Json.str "=0.4.1") ∷ ("serde", Json.str "1") ∷ []))
          ∷ [])
      else document (("dependencies", dict (("serde", Json.str "1") ∷ [])) ∷ []);
  lockfile = λ dir.
      if dir == "copy"
      then document (("package", list (locked_package ∷ [])) ∷ [])
      else document (("package", list (dict (("name", Json.str "serde") ∷ []) ∷ [])) ∷ []);
}

checkout_valid : validate_repository checkout ≡ ok (("copy", ("oxide-batch", "0.4.1") ∷ []) ∷ [])
unfolding validate_repository validate_cargo_source_config check_config load_workloads entry_paths
    workload_loop validate_workload validate_manifest manifest_subjects check_overrides dict_at get
    lookup iter_dependency_tables tables_in target_tables tables_loop table_loop add_dependency
    dependency_package detailed_package version_of resolve add_subject is_exact_version matches
    validate_lockfile lock_document check_subjects sort_subjects insert_subject check_locked
    packages_of check_package load_fixtures fixture_entries fixture_loop validate_fixture
    validate_fixture_manifest check_fixture_tables check_fixture_table validate_fixture_lockfile
    fixture_packages check_fixture_packages is_first_party_package insert path_parts is_lower_hex
checkout_valid = refl

validate_repository-is_published_example :
    (workloads : List String) × (fixtures : List String) × (load_workloads checkout.registry
      ≡ ok workloads)
    × (load_fixtures checkout.registry ≡ ok fixtures)
    × (all (λ dir. is_published (checkout.manifest dir) (checkout.lockfile dir)) workloads ≡ true)
    × (all (λ dir. is_free (checkout.manifest dir) (checkout.lockfile dir)) fixtures ≡ true)
validate_repository-is_published_example =
    validate_repository-is_published checkout (("copy", ("oxide-batch", "0.4.1") ∷ []) ∷ [])
      checkout_valid
