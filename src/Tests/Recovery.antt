-- ===== src/Tests/Recovery.antt =====
-- A crash case of 8 workers, where the first partitions were completed before the crash.
use oxide_batch_workloads.Base.{
  ◌≡◌, refl, ℕ, zero, suc, ◌+◌, ◌/◌, ◌%◌, String, ◌<>◌, true, false, none, some, List, [], ◌∷◌, ltb,
  if◌then◌else◌,
}
use oxide_batch_workloads.Base.Dict.{Dict, lookup, insert}
use oxide_batch_workloads.Base.Json.{Json, obj, arr, object, array, get, as_str, equals_num}
use oxide_batch_workloads.Base.SameJson.{same_json}
use oxide_batch_workloads.Base.Result.{ok}
use oxide_batch_workloads.Recovery.{
  member_dict, count_at, read_partition, partition_loop, partition_map, partition_at,
  check_verified, completed_workers, check_reused, check_target, check_partitions, check_executions,
  assert_final_recovery, Report, is_completed,
}
use oxide_batch_workloads.Recovery.Cases.{
  CrashRun, check_before, crash_case, target_of, expected_rows,
}
use oxide_batch_workloads.Recovery.Recovered.{IsRecovered, crash_case-IsRecovered}

abbrev status : Json → String
status j = elim (as_str j) [ none ↦ "" | some s ↦ s ]

abbrev nth : List String → ℕ → String
nth [] n = ""
nth (s ∷ ss) zero = s
nth (s ∷ ss) (suc n) = nth ss n

abbrev digit : ℕ → String
digit n = nth ("0" ∷ "1" ∷ "2" ∷ "3" ∷ "4" ∷ "5" ∷ "6" ∷ "7" ∷ "8" ∷ "9" ∷ []) n

abbrev four_digits : ℕ → String
four_digits n =
    digit (n / 1000) <> (digit ((n / 100) % 10) <> (digit ((n / 10) % 10) <> digit (n % 10)))

abbrev partition : ℕ → ℕ → Json
partition done n = obj (
    object (
      ("key", Json.str ("partition-" <> four_digits n))
      ∷ ("status", Json.str (if ltb n done then "COMPLETED" else "STARTED"))
      ∷ ("worker_step_execution_id", Json.num (if ltb n 5 then n + 1 else n + done))
      ∷ ("business_rows", Json.num 0)
      ∷ []))

-- The partitions below a number.
abbrev all_partitions : ℕ → ℕ → List Json
all_partitions done zero = []
all_partitions done (suc n) = partition done n ∷ all_partitions done n

abbrev crash : CrashRun
crash = record {
  marker =
      ("pid", Json.num 77)
      ∷ ("partition_key", Json.str "partition-0008")
      ∷ ("boundary", Json.str "before-write")
      ∷ [];
  crashed_pid = 77;
  killed = true;
  gone = true;
  before =
      ("latest_execution_status", Json.str "STARTED")
      ∷ ("executions", arr (array (Json.num 1 ∷ [])))
      ∷ ("partitions", arr (array (all_partitions 5 128)))
      ∷ [];
  recovered = true;
  continuation_pid = 78;
  continuation_returncode = 0;
  verified =
      ("framework", obj (object (("terminal_state_consistent", Json.bool true) ∷ [])))
      ∷ (
        "business",
        obj (
            object (
              ("destination_rows", Json.num 1024)
              ∷ ("expected_destination_digest", Json.str "d")
              ∷ ("actual_destination_digest", Json.str "d")
              ∷ ("range_ownership_complete", Json.bool true)
              ∷ [])),
      )
      ∷ [];
  final =
      ("latest_execution_status", Json.str "COMPLETED")
      ∷ ("nonterminal_execution_count", Json.num 0)
      ∷ ("executions", arr (array (Json.num 1 ∷ Json.num 2 ∷ [])))
      ∷ ("partitions", arr (array (all_partitions 128 128)))
      ∷ [];
}

abbrev report : Report
report = record {
  reused = 5;
  old_worker = Json.num 13;
  new_worker = Json.num 136;
  digest = Json.str "d";
  continuation_pid = 78;
}

recovered : crash_case status four_digits crash 8 "before-write" ≡ ok report
unfolding crash_case check_before assert_final_recovery check_verified check_executions
    partition_map check_partitions partition_loop read_partition partition_at member_dict count_at
    completed_workers check_reused check_target get lookup insert same_json
recovered = refl

crash_case-IsRecovered_example :
    (was : Dict (Dict Json)) × (now : Dict (Dict Json)) × (target : Dict Json) × (partition_map
        crash.before
      ≡ ok was)
    × (partition_map crash.final ≡ ok now)
    × (lookup (target_of status four_digits 8) was ≡ some target)
    × (is_completed status target ≡ false)
    × (equals_num (get target "business_rows") (expected_rows "before-write") ≡ true)
    × IsRecovered status was now (target_of status four_digits 8)
crash_case-IsRecovered_example =
    crash_case-IsRecovered status four_digits crash 8 "before-write" report recovered
