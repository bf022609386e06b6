-- ===== src/Recovery.antt =====
-- postgres-local-partition/ci/validate-recovery.py: what a crashed run and its continuation must show.
-- The processes are parameters, by the observations that they print and their exit statuses:
-- here the checks on the observations, in Recovery.Cases those of a whole case.
pub mod Cases
pub mod Recovered
use oxide_batch_workloads.Base.{
  ℕ, suc, zero, ◌+◌, String, Bool, true, false, not, ◌&&◌, ◌||◌, ◌==◌, ◌<>◌, Option, none, some,
  List, [], ◌∷◌, all, any, contains, length, nat_eq, is_empty, if◌then◌else◌,
}
use oxide_batch_workloads.Base.Dict.{Dict, lookup, insert, has_key, keys}
use oxide_batch_workloads.Base.Json.{
  Json, Items, Fields, items, fields, get, as_dict, as_list, as_str, equals_num, truthy,
}
use oxide_batch_workloads.Base.SameJson.{same_json}
use oxide_batch_workloads.Base.Text.{text_length}
use oxide_batch_workloads.Base.Result.{Result, ok, err, ◌>>=◌, ◌>>◌, reject_if, require}
use oxide_batch_workloads.Codeql.Coverage.{equals_text}
use oxide_batch_workloads.Evidence.Validated.{same_set}

-- The messages of AssertionError, the error of a program that fails, and those of Python itself.
pub data RecoveryError : Type 0 where
  no_partitions malformed_partition reused_pid inconsistent wrong_rows wrong_digest
        incomplete_ranges :
      RecoveryError
  not_completed nonterminal wrong_executions changed_keys unfinished none_completed no_worker :
      RecoveryError
  not_replayed wrong_pid wrong_marker not_killed still_exists not_nonterminal target_completed :
      RecoveryError
  accepted_mutation unexpected_refusal unchanged_source unrestored_source : RecoveryError
  called_process attribute_error type_error key_error : RecoveryError
  duplicate_partition re_executed : String → RecoveryError
  wrong_business_rows : Json → RecoveryError
  continuation_failed : ℕ → RecoveryError

abbrev pub rows : ℕ
rows = 1024

abbrev pub partitions : ℕ
partitions = 128

abbrev pub rows_per_partition : ℕ
rows_per_partition = 8

-- `d.get(k, {})`, of which a member is read next.
unfoldable pub member_dict : Dict Json → String → Result RecoveryError (Dict Json)
unfolding lookup
member_dict d k = elim (lookup k d) [
  | none ↦ ok []
  | some j ↦ elim (as_dict j) [ none ↦ err attribute_error | some e ↦ ok e ]
]

-- `len(d.get(k, []))`
abbrev length_of : Json → Result RecoveryError ℕ
length_of (Json.arr js) = ok (length (items js))
length_of (Json.obj fs) = ok (length (fields fs))
length_of (Json.str s) = ok (text_length s)
length_of j = err type_error

unfoldable pub count_at : Dict Json → String → Result RecoveryError ℕ
unfolding lookup text_length
count_at d k = elim (lookup k d) [ none ↦ ok 0 | some j ↦ length_of j ]

abbrev pub worker_of : Dict Json → Json
worker_of partition = get partition "worker_step_execution_id"

abbrev pub is_null : Json → Bool
is_null Json.null = true
is_null j = false

-- One partition of an observation: its key and the partition.
unfoldable pub read_partition : Json → Result RecoveryError (String × Dict Json)
unfolding get
read_partition j = elim (as_dict j) [
  | none ↦ err malformed_partition
  | some partition ↦ elim (as_str (get partition "key")) [
    | none ↦ err malformed_partition
    | some key ↦ ok (key, partition)
  ]
]

unfoldable pub partition_loop :
    Dict (Dict Json) → List Json → Result RecoveryError (Dict (Dict Json))
unfolding read_partition insert
partition_loop result [] = ok result
partition_loop result (j ∷ js) = do
  entry ← read_partition j
  reject_if (has_key result entry.0) (duplicate_partition entry.0)
  partition_loop (insert entry.0 entry.1 result) js

unfoldable pub partition_map : Dict Json → Result RecoveryError (Dict (Dict Json))
unfolding partition_loop get
partition_map observation = elim (as_list (get observation "partitions")) [
  | none ↦ err no_partitions
  | some js ↦ partition_loop [] js
]

-- `d[k]` of a dict of partitions.
unfoldable pub partition_at : Dict (Dict Json) → String → Result RecoveryError (Dict Json)
unfolding lookup
partition_at d k = elim (lookup k d) [ none ↦ err key_error | some partition ↦ ok partition ]

-- What `verify` reports at the end.
unfoldable pub check_verified : Dict Json → Result RecoveryError Json
unfolding member_dict get same_json
check_verified report = do
  framework ← member_dict report "framework"
  business ← member_dict report "business"
  require (truthy (get framework "terminal_state_consistent")) inconsistent
  require (equals_num (get business "destination_rows") rows) wrong_rows
  require
      (same_json (get business "expected_destination_digest")
        (get business "actual_destination_digest"))
      wrong_digest
  require (truthy (get business "range_ownership_complete")) incomplete_ranges
  ok (get business "actual_destination_digest")

pub record Report : Type 0 where
  pub reused : ℕ
  pub old_worker : Json
  pub new_worker : Json
  pub digest : Json
  pub continuation_pid : ℕ

-- `str(value).upper()` is a parameter.
module _ (normalized_status : Json → String) where
  abbrev pub is_completed : Dict Json → Bool
  is_completed partition = normalized_status (get partition "status") == "COMPLETED"

  -- The partitions that were completed, by their key and worker.
  unfoldable pub completed_workers : Dict (Dict Json) → Dict Json
  unfolding get
  completed_workers [] = []
  completed_workers ((key, partition) ∷ ps) =
      let rest = completed_workers ps in
      if is_completed partition then (key, worker_of partition) ∷ rest else rest

  -- A completed partition keeps its worker.
  unfoldable pub check_reused : Dict (Dict Json) → Dict Json → Result RecoveryError (Unit {0})
  unfolding partition_at same_json get
  check_reused final [] = ok tt
  check_reused final ((key, worker) ∷ ws) = do
    partition ← partition_at final key
    require (same_json (worker_of partition) worker) (re_executed key)
    check_reused final ws

  -- The target partition has a new worker.
  unfoldable pub check_target :
      Dict (Dict Json) → Dict (Dict Json) → String → Result RecoveryError (Json × Json)
  unfolding partition_at same_json get
  check_target before final key = do
    old ← partition_at before key
    new ← partition_at final key
    reject_if
        (is_null (worker_of old)
          || (is_null (worker_of new) || same_json (worker_of old) (worker_of new)))
        not_replayed
    ok (worker_of old, worker_of new)

  -- The partitions before the crash and after the continuation: the workers reused, and the target's.
  unfoldable pub check_partitions :
      Dict (Dict Json) → Dict (Dict Json) → String → Result RecoveryError (ℕ × (Json × Json))
  unfolding completed_workers check_reused check_target
  check_partitions before final target_key = do
    require (same_set (keys before) (keys final) && nat_eq (length final) partitions) changed_keys
    require (all (λ e. is_completed (e.1)) final) unfinished
    reject_if (is_empty (completed_workers before)) none_completed
    reject_if (any (λ e. is_null (e.1)) (completed_workers before)) no_worker
    check_reused final (completed_workers before)
    workers ← check_target before final target_key
    ok (length (completed_workers before), workers)

  -- The executions of the final observation.
  unfoldable pub check_executions : Dict Json → Dict Json → Result RecoveryError (Unit {0})
  unfolding count_at get
  check_executions before final = do
    require (normalized_status (get final "latest_execution_status") == "COMPLETED") not_completed
    require (equals_num (get final "nonterminal_execution_count") 0) nonterminal
    after ← count_at final "executions"
    earlier ← count_at before "executions"
    require (nat_eq after (earlier + 1)) wrong_executions

  unfoldable pub assert_final_recovery :
      Dict Json → String → ℕ → ℕ → Dict Json → Dict Json → Result RecoveryError Report
  unfolding check_verified check_executions partition_map check_partitions
  assert_final_recovery before target_key old_pid continuation_pid verified final = do
    reject_if (nat_eq continuation_pid old_pid) reused_pid
    digest ← check_verified verified
    check_executions before final
    before_partitions ← partition_map before
    final_partitions ← partition_map final
    outcome ← check_partitions before_partitions final_partitions target_key
    ok (record {
      reused = outcome.0;
      old_worker = outcome.1.0;
      new_worker = outcome.1.1;
      digest = digest;
      continuation_pid = continuation_pid;
    })
