-- ===== src/Shard.antt =====
-- .github/scripts/write-shard-result.py: one normalized shard result. The process's exit code is
-- a natural number, as a shell reports it.
use oxide_batch_workloads.Base.{
  ℕ, String, Bool, true, not, ◌==◌, Option, none, some, [], ◌∷◌, nat_eq, is_some, is_none, ◌&&◌,
  if◌then◌else◌,
}
use oxide_batch_workloads.Base.Dict.{Dict}
use oxide_batch_workloads.Base.Json.{Json}
use oxide_batch_workloads.Base.Text.{is_blank}
use oxide_batch_workloads.Base.Result.{Result, ok, err, ◌>>◌, reject_if}

pub data ShardError : Type 0 where
  exclusive neither_given wrong_stage blank_reason : ShardError

pub record ShardArgs : Type 0 where
  pub workload : String
  pub stage : String
  pub exit_code : Option ℕ
  pub not_applicable : Bool
  pub reason : Option String

-- `not reason or not reason.strip()`
abbrev pub lacks_text : Option String → Bool
lacks_text none = true
lacks_text (some s) = is_blank s

abbrev pub reason_text : Option String → Json
reason_text none = Json.null
reason_text (some s) = Json.str s

abbrev pub status_text : Option ℕ → String
status_text none = "failure"
status_text (some n) = if nat_eq n 0 then "success" else "failure"

abbrev pub exit_json : Option ℕ → Json
exit_json none = Json.null
exit_json (some n) = Json.num n

-- The dict of a disposition without a run.
abbrev pub not_applicable_dict : ShardArgs → Dict Json
not_applicable_dict a =
    ("workload", Json.str a.workload)
    ∷ ("stage", Json.str a.stage)
    ∷ ("status", Json.str "success")
    ∷ ("outcome", Json.str "not-applicable")
    ∷ ("reason", reason_text a.reason)
    ∷ []

-- The dict of a run with an exit code.
abbrev pub validated_dict : ShardArgs → Dict Json
validated_dict a =
    ("workload", Json.str a.workload)
    ∷ ("stage", Json.str a.stage)
    ∷ ("status", Json.str (status_text a.exit_code))
    ∷ ("outcome", Json.str "validated")
    ∷ ("exit_code", exit_json a.exit_code)
    ∷ []

-- The branch of `build_result` for `not_applicable`.
unfoldable pub build_not_applicable : ShardArgs → Result ShardError (Dict Json)
unfolding is_blank
build_not_applicable a = do
  reject_if (not (a.stage == "msrv")) wrong_stage
  reject_if (lacks_text a.reason) blank_reason
  ok (not_applicable_dict a)

unfoldable pub build_result : ShardArgs → Result ShardError (Dict Json)
unfolding build_not_applicable
build_result a = do
  reject_if (a.not_applicable && is_some a.exit_code) exclusive
  reject_if (not a.not_applicable && is_none a.exit_code) neither_given
  (if a.not_applicable then build_not_applicable a else ok (validated_dict a))

-- `main`: the exit status, and the content of the file that is written.
unfoldable pub main : ShardArgs → ℕ × Option (Dict Json)
unfolding build_result
main a = elim (build_result a) [ err e ↦ (1, none) | ok d ↦ (0, some d) ]
