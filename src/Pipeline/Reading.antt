-- ===== src/Pipeline/Reading.antt =====
-- What `load_results` and `_load_expected` read back from what the other scripts wrote.
use oxide_batch_workloads.Base.{
  ◌≡◌, refl, ℕ, String, true, false, none, some, List, [], ◌∷◌, ◌++◌, map, nat_eq, if◌then◌else◌,
  Bool-cases, inl, inr, eq_refl,
}
use oxide_batch_workloads.Base.Dict.{Dict, lookup}
use oxide_batch_workloads.Base.Json.{Json, obj, object}
use oxide_batch_workloads.Base.Result.{ok}
use oxide_batch_workloads.Aggregate.{ShardResult}
use oxide_batch_workloads.Aggregate.Load.{ResultFile, load_file, load_files, loaded}
use oxide_batch_workloads.Shard.{ShardArgs, validated_dict, not_applicable_dict}

-- The arguments of write-shard-result.py for a runner that exits with a code.
abbrev pub run_args : String → String → ℕ → ShardArgs
run_args stage name code = record {
  workload = name;
  stage = stage;
  exit_code = some code;
  not_applicable = false;
  reason = none;
}

abbrev pub as_file : String → Dict Json → ResultFile
as_file name d = record { name = name; content = some (obj (object d)) }

-- The two outcomes of `build_result`, read back.
abbrev pub result_of_run : String → String → String → ℕ → ShardResult
result_of_run source stage name code = record {
  workload = name;
  stage = stage;
  status = if nat_eq code 0 then "success" else "failure";
  outcome = "validated";
  source = source;
}

abbrev pub result_of_synthesis : String → String → ShardResult
result_of_synthesis source name = record {
  workload = name;
  stage = "msrv";
  status = "success";
  outcome = "not-applicable";
  source = source;
}

pub load_file-run :
    (source stage name : String) (code : ℕ)
    → load_file stage (as_file source (validated_dict (run_args stage name code)))
      ≡ ok (loaded (result_of_run source stage name code))
unfolding load_file lookup
load_file-run source stage name code = elim (Bool-cases (nat_eq code 0)) [
  | inl e ↦ rw (eq_refl stage) (rw e)
  | inr e ↦ rw (eq_refl stage) (rw e)
]

pub load_file-synthesis :
    (source name reason : String)
    → load_file "msrv" (
        as_file source (
          not_applicable_dict (record {
            workload = name;
            stage = "msrv";
            exit_code = none;
            not_applicable = true;
            reason = some reason;
          })))
      ≡ ok (loaded (result_of_synthesis source name))
unfolding load_file lookup
load_file-synthesis source name reason = refl

-- Files that all read as results are read as those results, in order, with no errors.
pub load_files-map {ℓ} :
    {A : Type ℓ} (stage : String) (file : A → ResultFile) (result : A → ShardResult) (xs : List A)
    (files : List ResultFile) (rs : List ShardResult)
    → ((x : A) → load_file stage (file x) ≡ ok (loaded (result x)))
    → load_files stage files ≡ ok (rs, [])
    → load_files stage (map file xs ++ files) ≡ ok (map result xs ++ rs, [])
unfolding load_files
load_files-map stage file result [] files rs h k = k
load_files-map stage file result (x ∷ xs) files rs h k =
    rw (h x, load_files-map stage file result xs files rs h k)
