-- ===== src/Aggregate/Main.antt =====
-- `main` of aggregate_verdict.py, from parsed arguments to the exit status.
use oxide_batch_workloads.Base.{ℕ, String, Bool, Option, List}
use oxide_batch_workloads.Base.Dict.{Dict}
use oxide_batch_workloads.Base.Json.{Json}
use oxide_batch_workloads.Base.Result.{ok, err}
use oxide_batch_workloads.Aggregate.{
  ExpectedShard, ShardResult, ParseError, compute_verdict, exit_status,
}
use oxide_batch_workloads.Aggregate.Load.{ResultFile, load_expected, load_results}

pub record MainArgs : Type 0 where
  pub stage : String
  pub discover : Option Json
  pub files : Option (List ResultFile)
  pub discovery_ok : Bool
  pub upstream_job_ok : Bool
  pub job_statuses : Dict String

unfoldable pub verdict_status :
    MainArgs → List ExpectedShard → List ShardResult × List ParseError → ℕ
unfolding exit_status compute_verdict
verdict_status a expected (results, parse_errors) = exit_status (
    compute_verdict (record {
      expected = expected;
      results = results;
      discovery_ok = a.discovery_ok;
      upstream_job_ok = a.upstream_job_ok;
      parse_errors = parse_errors;
      job_statuses = a.job_statuses;
    }))

-- An exception that nothing catches ends the interpreter with status 1, as `SystemExit` with a
-- message does.
unfoldable pub main : MainArgs → ℕ
unfolding load_expected load_results verdict_status
main a = elim (load_expected a.discover a.stage) [
  | err e ↦ 1
  | ok expected ↦ elim (load_results a.files a.stage) [
    | err e ↦ 1
    | ok loaded ↦ verdict_status a expected loaded
  ]
]
