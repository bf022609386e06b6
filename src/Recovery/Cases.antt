-- ===== src/Recovery/Cases.antt =====
-- `crash_case` and `source_mutation_case`, from what their processes report.
use oxide_batch_workloads.Base.{
  ℕ, String, ◌<>◌, Bool, ◌&&◌, ◌==◌, List, [], ◌∷◌, contains, nat_eq, if◌then◌else◌,
}
use oxide_batch_workloads.Base.Dict.{Dict}
use oxide_batch_workloads.Base.Json.{Json, get, equals_num}
use oxide_batch_workloads.Base.SameJson.{same_json}
use oxide_batch_workloads.Base.Text.{has_text}
use oxide_batch_workloads.Base.Result.{Result, ◌>>=◌, ◌>>◌, reject_if, require}
use oxide_batch_workloads.Codeql.Coverage.{equals_text}
use oxide_batch_workloads.Recovery.{
  RecoveryError, wrong_pid, wrong_marker, not_killed, still_exists, not_nonterminal,
  target_completed, called_process, wrong_business_rows, continuation_failed, accepted_mutation,
  unexpected_refusal, unchanged_source, unrestored_source, rows_per_partition, Report,
  partition_map, partition_at, is_completed, assert_final_recovery,
}

-- What the processes of one crash case report.
pub record CrashRun : Type 0 where
  pub marker : Dict Json
  pub crashed_pid : ℕ
  -- Whether the exit status says that the process died by SIGKILL.
  pub killed : Bool
  -- Whether its identifier is no longer in use, within five seconds.
  pub gone : Bool
  pub before : Dict Json
  pub recovered : Bool
  pub continuation_pid : ℕ
  pub continuation_returncode : ℕ
  pub verified : Dict Json
  pub final : Dict Json

abbrev pub nonterminal_statuses : List String
nonterminal_statuses = "STARTING" ∷ "STARTED" ∷ "STOPPING" ∷ "UNKNOWN" ∷ []

abbrev pub expected_rows : String → ℕ
expected_rows boundary = if boundary == "before-write" then 0 else rows_per_partition

-- So are the four digits of a number.
module _ (normalized_status : Json → String) (four_digits : ℕ → String) where
  abbrev pub target_of : ℕ → String
  target_of workers = "partition-" <> four_digits workers

  -- The observation between the crash and the recovery.
  unfoldable pub check_before : Dict Json → String → String → Result RecoveryError (Unit {0})
  unfolding partition_map partition_at get
  check_before before target_key boundary = do
    require
        (contains nonterminal_statuses (normalized_status (get before "latest_execution_status")))
        not_nonterminal
    before_partitions ← partition_map before
    target ← partition_at before_partitions target_key
    reject_if (is_completed normalized_status target) target_completed
    require (equals_num (get target "business_rows") (expected_rows boundary))
        (wrong_business_rows (get target "business_rows"))

  unfoldable pub crash_case : CrashRun → ℕ → String → Result RecoveryError Report
  unfolding check_before assert_final_recovery get
  crash_case r workers boundary = do
    require (equals_num (get r.marker "pid") r.crashed_pid) wrong_pid
    require
        (equals_text (get r.marker "partition_key") (target_of workers)
          && equals_text (get r.marker "boundary") boundary)
        wrong_marker
    require r.killed not_killed
    require r.gone still_exists
    check_before r.before (target_of workers) boundary
    require r.recovered called_process
    require (nat_eq r.continuation_returncode 0) (continuation_failed r.continuation_returncode)
    assert_final_recovery normalized_status r.before (target_of workers) r.crashed_pid
        r.continuation_pid r.verified r.final

-- What the processes of the case of a changed source report, besides those of a crash.
pub record MutationRun : Type 0 where
  pub crash : CrashRun
  pub refused_returncode : ℕ
  pub refused_stderr : String
  pub changed : Dict Json
  pub restored : Dict Json

module _ (normalized_status : Json → String) (four_digits : ℕ → String) where
  -- The recovery is refused while the source is changed, and succeeds when it is as before.
  unfoldable pub source_mutation_case : MutationRun → Result RecoveryError Report
  unfolding assert_final_recovery get same_json has_text
  source_mutation_case r = do
    require (equals_num (get r.crash.marker "pid") r.crash.crashed_pid) wrong_pid
    require r.crash.killed not_killed
    require r.crash.gone still_exists
    reject_if (nat_eq r.refused_returncode 0) accepted_mutation
    require (has_text "recovery refused" r.refused_stderr) unexpected_refusal
    reject_if
        (same_json (get r.changed "live_source_digest") (get r.crash.before "live_source_digest"))
        unchanged_source
    require
        (same_json (get r.restored "live_source_digest") (get r.crash.before "live_source_digest"))
        unrestored_source
    require r.crash.recovered called_process
    require (nat_eq r.crash.continuation_returncode 0)
        (continuation_failed r.crash.continuation_returncode)
    assert_final_recovery normalized_status r.crash.before
        (target_of normalized_status four_digits 8) r.crash.crashed_pid r.crash.continuation_pid
        r.crash.verified r.crash.final
