-- ===== src/Provenance/Repository.antt =====
-- The whole check: Cargo's configuration, the workloads, and the fixtures.
use oxide_batch_workloads.Base.{ℕ, String, Option, none, some, List, [], ◌∷◌}
use oxide_batch_workloads.Base.Dict.{Dict, lookup, insert, has_key}
use oxide_batch_workloads.Base.Json.{Json, get, as_dict, as_list, as_str}
use oxide_batch_workloads.Base.Result.{Result, ok, err, ◌>>=◌, ◌>>◌, reject_if}
use oxide_batch_workloads.Registry.{
  Manifest, absent, invalid, document, RegistryFile, no_file, no_json, value, path_parts,
}
use oxide_batch_workloads.Provenance.{
  ProvenanceError, invalid_config, source_replacement, unreadable_registry, no_workloads,
  invalid_entry, bad_fixtures, validate_manifest,
}
use oxide_batch_workloads.Provenance.Lock.{
  validate_lockfile, validate_fixture_manifest, validate_fixture_lockfile,
}

-- The checkout: workloads.json, and by the directory below the root (the root itself is "") the
-- two files of Cargo's configuration, the manifest and the lock file.
pub record Checkout : Type 0 where
  pub registry : RegistryFile
  pub config_toml : String → Manifest
  pub config : String → Manifest
  pub manifest : String → Manifest
  pub lockfile : String → Manifest

unfoldable pub check_config : Manifest → Result ProvenanceError (Unit {0})
check_config absent = ok tt
check_config invalid = err invalid_config
check_config (document d) = reject_if (has_key d "source") source_replacement

unfoldable pub validate_cargo_source_config : Checkout → String → Result ProvenanceError (Unit {0})
unfolding check_config
validate_cargo_source_config c dir = check_config (c.config_toml dir) >> check_config (c.config dir)

-- The paths of a list of entries.
unfoldable pub entry_paths : List Json → Result ProvenanceError (List String)
unfolding get
entry_paths [] = ok []
entry_paths (j ∷ js) = elim (as_dict j) [
  | none ↦ err invalid_entry
  | some d ↦ elim (as_str (get d "path")) [
    | none ↦ err invalid_entry
    | some path ↦ entry_paths js >>= λ paths. ok (path ∷ paths)
  ]
]

unfoldable pub load_workloads : RegistryFile → Result ProvenanceError (List String)
unfolding entry_paths get
load_workloads no_file = err unreadable_registry
load_workloads no_json = err unreadable_registry
load_workloads (value j) = elim (as_dict j) [
  | none ↦ err no_workloads
  | some d ↦ elim (as_list (get d "workloads")) [
    | none ↦ err no_workloads
    | some [] ↦ err no_workloads
    | some (e ∷ es) ↦ entry_paths (e ∷ es)
  ]
]

-- `registry.get("fixtures", [])`, if that is a list.
unfoldable pub fixture_entries : Dict Json → Option (List Json)
unfolding lookup
fixture_entries d = elim (lookup "fixtures" d) [ none ↦ some [] | some j ↦ as_list j ]

unfoldable pub load_fixtures : RegistryFile → Result ProvenanceError (List String)
unfolding fixture_entries entry_paths
load_fixtures no_file = err unreadable_registry
load_fixtures no_json = err unreadable_registry
load_fixtures (value j) = elim (as_dict j) [
  | none ↦ ok []
  | some d ↦ elim (fixture_entries d) [ none ↦ err bad_fixtures | some es ↦ entry_paths es ]
]

-- `Path(…).name`
abbrev pub last_part : List String → String
last_part [] = ""
last_part (p ∷ []) = p
last_part (p ∷ q ∷ ps) = last_part (q ∷ ps)

-- One workload.
unfoldable pub validate_workload : Checkout → String → Result ProvenanceError (Dict String)
unfolding validate_cargo_source_config validate_manifest validate_lockfile
validate_workload c dir = do
  validate_cargo_source_config c dir
  subjects ← validate_manifest (c.manifest dir)
  validate_lockfile (c.lockfile dir) subjects
  ok subjects

-- The subjects of the workloads by the names of their directories.
unfoldable pub workload_loop :
    Checkout → Dict (Dict String) → List String → Result ProvenanceError (Dict (Dict String))
unfolding validate_workload path_parts insert
workload_loop c result [] = ok result
workload_loop c result (dir ∷ dirs) = validate_workload c dir >>= λ subjects.
    workload_loop c (insert (last_part (path_parts dir)) subjects result) dirs

unfoldable pub validate_fixture : Checkout → String → Result ProvenanceError (Unit {0})
unfolding validate_fixture_manifest validate_fixture_lockfile
validate_fixture c dir =
    validate_fixture_manifest (c.manifest dir) >> validate_fixture_lockfile (c.lockfile dir)

unfoldable pub fixture_loop : Checkout → List String → Result ProvenanceError (Unit {0})
unfolding validate_fixture
fixture_loop c [] = ok tt
fixture_loop c (dir ∷ dirs) = validate_fixture c dir >> fixture_loop c dirs

unfoldable pub validate_repository : Checkout → Result ProvenanceError (Dict (Dict String))
unfolding validate_cargo_source_config load_workloads workload_loop load_fixtures fixture_loop
validate_repository c = do
  validate_cargo_source_config c ""
  workloads ← load_workloads c.registry
  result ← workload_loop c [] workloads
  fixtures ← load_fixtures c.registry
  fixture_loop c fixtures
  ok result

-- The exit status of `main`.
unfoldable pub main : Checkout → ℕ
unfolding validate_repository
main c = elim (validate_repository c) [ err e ↦ 1 | ok result ↦ 0 ]
