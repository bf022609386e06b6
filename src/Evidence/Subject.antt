-- ===== src/Evidence/Subject.antt =====
-- `historical_provenance` and `validate_subject`: the crates that the evidence is about.
use oxide_batch_workloads.Base.{
  ℕ, suc, String, ◌<>◌, Bool, true, false, ◌&&◌, ◌==◌, Option, none, some, List, [], ◌∷◌, text_leb,
  if◌then◌else◌,
}
use oxide_batch_workloads.Base.Dict.{Dict}
use oxide_batch_workloads.Base.Json.{Json, get, as_list, as_str}
use oxide_batch_workloads.Base.Result.{Result, ok, err, ◌>>=◌, ◌>>◌, require}
use oxide_batch_workloads.Registry.{Manifest, document}
use oxide_batch_workloads.Provenance.{ProvenanceError, validate_manifest}
use oxide_batch_workloads.Provenance.Lock.{packages_of, sort_subjects, validate_lockfile}
use oxide_batch_workloads.Provenance.Repository.{check_config}
use oxide_batch_workloads.Evidence.{
  plain, item, require_keys, require_string, require_hex, safe_path,
}
use oxide_batch_workloads.Evidence.Closure.{ClosureEntry}
use oxide_batch_workloads.Evidence.Validated.{Git}
use oxide_batch_workloads.Evidence.Retention.{closure_blob}
use oxide_batch_workloads.Evidence.Records.{
  ManifestError, field, no_blob, bad_provenance, no_lock_packages, wrong_lock_path,
  wrong_lock_identity, no_crates, crates_differ, wrong_package,
}

-- More of what the script asks of Git: whether a commit is there, the blob of an id read as TOML if
-- it is there, and the file of a revision read as TOML. All texts are UTF-8.
pub record History : Type 0 where
  pub git : Git
  pub commit_available : String → Bool
  pub blob : String → Option Manifest
  pub show : String → String → Manifest

pub record Crate : Type 0 where
  pub name : String
  pub version : String
  pub source : String
  pub checksum : String

abbrev same_crate : Crate → Crate → Bool
same_crate a b =
    a.name == b.name
    && (a.version == b.version && (a.source == b.source && a.checksum == b.checksum))

abbrev pub same_crates : List Crate → List Crate → Bool
same_crates [] [] = true
same_crates (a ∷ as1) (b ∷ bs) = same_crate a b && same_crates as1 bs
same_crates as1 bs = false

abbrev pub provenance {ℓ} : {A : Type ℓ} → Result ProvenanceError A → Result ManifestError A
provenance (ok a) = ok a
provenance (err e) = err (bad_provenance e)

unfoldable pub blob_of : History → String → Result ManifestError Manifest
blob_of history oid = elim (history.blob oid) [ none ↦ err (no_blob oid) | some m ↦ ok m ]

-- `PROVENANCE.validate_cargo_source_config` on the files of the revision below a prefix.
unfoldable pub check_source_config : History → String → String → Result ProvenanceError (Unit {0})
unfolding check_config
check_source_config history revision prefix =
    check_config (history.show revision (prefix <> ".cargo/config.toml"))
    >> check_config (history.show revision (prefix <> ".cargo/config"))

-- The calls of the other script inside the `try`.
unfoldable pub snapshot_subjects :
    History → String → String → Manifest → Manifest → Result ProvenanceError (Dict String)
unfolding check_source_config validate_manifest validate_lockfile
snapshot_subjects history workload_path revision manifest lock = do
  check_source_config history revision ""
  check_source_config history revision (workload_path <> "/")
  subjects ← validate_manifest manifest
  validate_lockfile lock subjects
  ok subjects

-- `str(…)` of a text; `validate_lockfile` has seen to it that there is one.
abbrev text_at : Dict Json → String → String → Result ManifestError String
text_at d k name = elim (as_str (get d k)) [ none ↦ err (wrong_package name) | some s ↦ ok s ]

unfoldable pub crate_of : List Json → String × String → Result ManifestError Crate
unfolding packages_of get
crate_of packages (name, version) = elim (packages_of packages name version) [
  | [] ↦ err (wrong_package name)
  | d ∷ [] ↦ text_at d "source" name >>= λ source. text_at d "checksum" name >>= λ checksum.
      ok (record { name = name; version = version; source = source; checksum = checksum })
  | d ∷ e ∷ ds ↦ err (wrong_package name)
]

unfoldable pub crates_of : List Json → Dict String → Result ManifestError (List Crate)
unfolding crate_of
crates_of packages [] = ok []
crates_of packages (s ∷ ss) =
    crate_of packages s >>= λ crate. crates_of packages ss >>= λ crates. ok (crate ∷ crates)

unfoldable pub lock_crates : Manifest → Dict String → Result ManifestError (List Crate)
unfolding crates_of sort_subjects get
lock_crates (document d) subjects = elim (as_list (get d "package")) [
  | none ↦ err no_lock_packages
  | some packages ↦ crates_of packages (sort_subjects subjects)
]
lock_crates lock subjects = err no_lock_packages

-- The crates, and the id of the lock file.
unfoldable pub historical_provenance :
    History → String → List ClosureEntry → String → Result ManifestError (List Crate × String)
unfolding closure_blob blob_of snapshot_subjects lock_crates
historical_provenance history workload_path entries revision = do
  manifest_oid ← closure_blob entries "Cargo.toml"
  lock_oid ← closure_blob entries "Cargo.lock"
  manifest ← blob_of history manifest_oid
  lock ← blob_of history lock_oid
  subjects ← provenance (snapshot_subjects history workload_path revision manifest lock)
  crates ← lock_crates lock subjects
  ok (crates, lock_oid)

abbrev section : String
section = "validation_subject.crates"

unfoldable pub recorded_crate : ℕ → Json → Result ManifestError Crate
unfolding require_keys require_string require_hex get
recorded_crate index j = do
  d ←
      field
        (require_keys j ("name" ∷ "version" ∷ "source" ∷ "checksum" ∷ []) (item section index ""))
  name ← field (require_string (get d "name") (item section index ".name"))
  version ← field (require_string (get d "version") (item section index ".version"))
  source ← field (require_string (get d "source") (item section index ".source"))
  checksum ← field (require_hex (get d "checksum") 64 (item section index ".checksum"))
  ok (record { name = name; version = version; source = source; checksum = checksum })

unfoldable pub recorded_crates : ℕ → List Json → Result ManifestError (List Crate)
unfolding recorded_crate
recorded_crates index [] = ok []
recorded_crates index (j ∷ js) = recorded_crate index j >>= λ crate.
    recorded_crates (suc index) js >>= λ crates. ok (crate ∷ crates)

unfoldable pub insert_crate : Crate → List Crate → List Crate
insert_crate c [] = c ∷ []
insert_crate c (d ∷ ds) =
    let later = d ∷ insert_crate c ds in if text_leb c.name d.name then c ∷ d ∷ ds else later

-- `normalized.sort(key=lambda item: item["name"])`
unfoldable pub sort_crates : List Crate → List Crate
unfolding insert_crate
sort_crates [] = []
sort_crates (c ∷ cs) = insert_crate c (sort_crates cs)

-- The list of the crates that the manifest records.
unfoldable pub check_crates : Json → List Crate → Result ManifestError (Unit {0})
unfolding recorded_crates sort_crates
check_crates value expected = elim (as_list value) [
  | none ↦ err no_crates
  | some [] ↦ err no_crates
  | some (j ∷ js) ↦ recorded_crates 0 (j ∷ js) >>= λ crates.
      require (same_crates (sort_crates crates) expected) crates_differ
]

unfoldable pub validate_subject :
    History → String → List ClosureEntry → String → Json → Result ManifestError (Unit {0})
unfolding require_keys safe_path require_hex historical_provenance check_crates get
validate_subject history workload_path entries revision value = do
  subject ← field (require_keys value ("lockfile" ∷ "crates" ∷ []) (plain "validation_subject"))
  lockfile ← field (
      require_keys (get subject "lockfile") ("path" ∷ "git_blob_oid" ∷ [])
        (plain "validation_subject.lockfile"))
  path ← field (safe_path (get lockfile "path") (plain "validation_subject.lockfile.path"))
  require (path == "Cargo.lock") wrong_lock_path
  recorded ← field (
      require_hex (get lockfile "git_blob_oid") 40
        (plain "validation_subject.lockfile.git_blob_oid"))
  expected ← historical_provenance history workload_path entries revision
  require (recorded == expected.1) wrong_lock_identity
  check_crates (get subject "crates") expected.0
