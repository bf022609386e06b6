-- ===== src/Tests/Retention.antt =====
-- Evidence of one artifact for the workload of the small repository.
use oxide_batch_workloads.Base.{
  ◌≡◌, refl, String, true, false, ◌==◌, none, some, List, [], ◌∷◌, All, if◌then◌else◌,
}
use oxide_batch_workloads.Base.Dict.{Dict}
use oxide_batch_workloads.Base.Json.{Json, obj, arr, object, array}
use oxide_batch_workloads.Base.Result.{ok, is_ok}
use oxide_batch_workloads.Registry.{value, absent, document}
use oxide_batch_workloads.Registry.Repository.{Registry}
use oxide_batch_workloads.Registry.Repository
use oxide_batch_workloads.Evidence.Validated.{TreeLine, same_set}
use oxide_batch_workloads.Evidence.Records.{Kept, kept_paths}
use oxide_batch_workloads.Evidence.Retention.{validate_retention}
use oxide_batch_workloads.Evidence.Subject.{History}
use oxide_batch_workloads.Evidence.Manifest.{
  Directory, Retained, nothing, directory, workload_loop, validate_repository,
}
use oxide_batch_workloads.Evidence.Kept.{IsWithin, limits_of, validate_retention-IsWithin}
use oxide_batch_workloads.Evidence.Retained.{KeepsValid, validate_repository-KeepsValid}
use oxide_batch_workloads.Tests.{root, file}

abbrev dict : Dict Json → Json
dict d = obj (object d)

abbrev list : List Json → Json
list js = arr (array js)

abbrev oid : String
oid = "0123456789abcdef0123456789abcdef01234567"

abbrev lock_oid : String
lock_oid = "aaaaaaaaaaaaaaaaaaaaaaaaaaaaaaaaaaaaaaaa"

abbrev digest : String
digest = "0123456789abcdef0123456789abcdef0123456789abcdef0123456789abcdef"

abbrev line : String → String → TreeLine
line path id = record { mode = "100644"; kind = "blob"; oid = id; path = path }

abbrev history : History
history = record {
  git = record {
    ls_tree = λ revision workload_path. some (
        line "csv/Cargo.lock" lock_oid ∷ line "csv/Cargo.toml" oid ∷ line "csv/verify.py" oid ∷ []);
    revisions = "r1" ∷ [];
    digest = λ entries. digest;
  };
  commit_available = λ revision. false;
  blob = λ id.
      if id == lock_oid
      then some (
          document (
            (
              "package",
              list (
                  dict (
                    ("name", Json.str "oxide-batch")
                    ∷ ("version", Json.str "0.4.1")
                    ∷ ("source", Json.str "sparse+https://index.crates.io/")
                    ∷ ("checksum", Json.str digest)
                    ∷ [])
                  ∷ []),
            )
            ∷ []))
      else some (document (("dependencies", dict (("oxide-batch", Json.str "=0.4.1") ∷ [])) ∷ []));
  show = λ revision path. absent;
}

abbrev recorded : String → String → Json
recorded path id =
    dict
      (("path", Json.str path) ∷ ("mode", Json.str "100644") ∷ ("git_blob_oid", Json.str id) ∷ [])

abbrev texts : List String → Json
texts [] = list []
texts (t ∷ []) = list (Json.str t ∷ [])
texts (t ∷ u ∷ []) = list (Json.str t ∷ Json.str u ∷ [])
texts (t ∷ u ∷ v ∷ ts) = list (Json.str t ∷ Json.str u ∷ Json.str v ∷ [])

abbrev contents : Dict Json
contents =
    ("schema_version", Json.num 2)
    ∷ ("workload", Json.str "csv")
    ∷ (
      "producer",
      dict (
          ("base_revision", Json.str oid)
          ∷ ("revision_role", Json.str "producer-checkout")
          ∷ (
            "run",
            dict (
                ("kind", Json.str "local")
                ∷ ("identity", Json.null)
                ∷ ("binding", Json.str "schema-checked")
                ∷ []),
          )
          ∷ []),
    )
    ∷ (
      "semantic_closure",
      dict (
          ("algorithm", Json.str "sha256-git-tree-entries-v1")
          ∷ ("includes", texts ("Cargo.lock" ∷ "Cargo.toml" ∷ "verify.py" ∷ []))
          ∷ ("excluded_generated_paths", texts ("validation/run.json" ∷ []))
          ∷ (
            "entries",
            list (
                recorded "Cargo.lock" lock_oid
                ∷ recorded "Cargo.toml" oid
                ∷ recorded "verify.py" oid
                ∷ []),
          )
          ∷ ("digest_sha256", Json.str digest)
          ∷ []),
    )
    ∷ (
      "validation_subject",
      dict (
          (
            "lockfile",
            dict (("path", Json.str "Cargo.lock") ∷ ("git_blob_oid", Json.str lock_oid) ∷ []),
          )
          ∷ (
            "crates",
            list (
                dict (
                  ("name", Json.str "oxide-batch")
                  ∷ ("version", Json.str "0.4.1")
                  ∷ ("source", Json.str "sparse+https://index.crates.io/")
                  ∷ ("checksum", Json.str digest)
                  ∷ [])
                ∷ []),
          )
          ∷ []),
    )
    ∷ (
      "records",
      list (
          dict (
            ("scenario", Json.str "one run")
            ∷ (
              "artifact",
              dict (
                  ("path", Json.str "validation/run.json")
                  ∷ ("sha256", Json.str digest)
                  ∷ ("size_bytes", Json.num 120)
                  ∷ []),
            )
            ∷ (
              "input",
              dict (
                  (
                    "identity",
                    dict (("kind", Json.str "csv") ∷ ("reference", Json.str "seed 7") ∷ []),
                  )
                  ∷ ("reproduction", dict (("rows", Json.num 5) ∷ []))
                  ∷ []),
            )
            ∷ ("parameters", dict [])
            ∷ ("failure_point", Json.null)
            ∷ [])
          ∷ []),
    )
    ∷ (
      "verifier",
      dict (
          (
            "canonical",
            dict (
                ("path", Json.str "verify.py")
                ∷ ("sha256", Json.str digest)
                ∷ ("result_model", Json.str "violations-v1")
                ∷ []),
          )
          ∷ (
            "producer",
            dict (("path", Json.str "verify.py") ∷ ("git_blob_oid", Json.str oid) ∷ []),
          )
          ∷ []),
    )
    ∷ (
      "environment",
      dict (
          (
            "observations",
            list (
                dict (
                  ("name", Json.str "os")
                  ∷ ("value", Json.str "linux")
                  ∷ ("trust", Json.str "recorded-metadata")
                  ∷ ("source", Json.str "uname")
                  ∷ [])
                ∷ []),
          )
          ∷ ("limitations", list [])
          ∷ []),
    )
    ∷ (
      "retention",
      dict (
          (
            "committed_artifacts",
            dict (
                ("directory", Json.str "validation")
                ∷ ("max_count", Json.num 4)
                ∷ ("max_total_bytes", Json.num 1000)
                ∷ ("supersession", Json.str "replace")
                ∷ []),
          )
          ∷ ("wall_clock_freshness_merge_gate", Json.bool false)
          ∷ []),
    )
    ∷ ("external_artifacts", list [])
    ∷ []

abbrev evidence : Directory
evidence = record {
  manifest = value (dict contents);
  files = λ path.
      if path == "validation/run.json"
      then some (record { size = 120; sha256 = digest })
      else if path == "verify.py"
      then some (record { size = 9; sha256 = digest })
      else none;
  json_files = "validation/run.json" ∷ [];
  run = λ path. record {
    stdout = some (dict (("schema_version", Json.num 1) ∷ ("violations", list []) ∷ []));
    returncode = 0;
  };
}

abbrev retained : String → Retained
retained path = if path == "csv" then directory evidence else nothing

repository_valid : validate_repository history root file retained ≡ ok ("csv" ∷ [])
unfolding validate_repository workload_loop
repository_valid = refl

validate_repository-KeepsValid_example :
    (found : Registry) × (Repository.validate_repository root file ≡ ok found)
    × All (λ e. KeepsValid history e.path (retained e.path)) found.workloads
validate_repository-KeepsValid_example =
    validate_repository-KeepsValid history root file retained ("csv" ∷ []) repository_valid

abbrev limits : Dict Json
limits =
    ("directory", Json.str "validation")
    ∷ ("max_count", Json.num 4)
    ∷ ("max_total_bytes", Json.num 1000)
    ∷ ("supersession", Json.str "replace")
    ∷ []

abbrev section : Json
section = dict (
    ("committed_artifacts", dict limits)
    ∷ ("wall_clock_freshness_merge_gate", Json.bool false)
    ∷ [])

abbrev kept : List Kept
kept = record { scenario = "one run"; path = "validation/run.json"; size = 120 } ∷ []

within : is_ok (validate_retention ("validation/run.json" ∷ []) section kept) ≡ true
unfolding validate_retention
within = refl

validate_retention-IsWithin_example :
    (committed : Dict Json) × (limits_of section ≡ some committed)
    × IsWithin committed kept
    × (same_set ("validation/run.json" ∷ []) (kept_paths kept) ≡ true)
validate_retention-IsWithin_example =
    validate_retention-IsWithin ("validation/run.json" ∷ []) section kept within
