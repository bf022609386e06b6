-- ===== src/Recovery/Recovered.antt =====
-- What an accepted crash case shows of the partitions.
use oxide_batch_workloads.Base.{
  ◌≡◌, refl, sym, ap, ◌∙◌, ℕ, String, Bool, true, false, not, ◌&&◌, ◌||◌, Option, none, some, [],
  ◌∷◌, all, any, length, nat_eq, is_empty, contains, arith, and_intro, and_left, and_right, or_left,
  or_right, Bool-cases, Option-cases, inl, inr,
}
use oxide_batch_workloads.Base.Dict.{Dict, lookup, keys}
use oxide_batch_workloads.Base.Json.{Json, get, equals_num}
use oxide_batch_workloads.Base.SameJson.{same_json}
use oxide_batch_workloads.Base.Result.{
  Result, ok, err, is_ok, is_ok-require, >>=-eq-ok, >>-eq-ok, require-eq-ok, reject_if-eq-ok,
  ok_inj,
}
use oxide_batch_workloads.Codeql.Coverage.{equals_text}
use oxide_batch_workloads.Evidence.Validated.{same_set}
use oxide_batch_workloads.Recovery.{
  RecoveryError, wrong_business_rows, partitions, Report, worker_of, is_null, partition_map,
  partition_at, check_verified, is_completed, completed_workers, check_reused, check_target,
  check_partitions, check_executions, assert_final_recovery,
}
use oxide_batch_workloads.Recovery.Cases.{
  CrashRun, nonterminal_statuses, expected_rows, target_of, check_before, crash_case,
}

partition_at-is :
    (d : Dict (Dict Json)) (key : String) (p : Dict Json)
    → partition_at d key ≡ ok p
    → lookup key d ≡ some p
unfolding partition_at
partition_at-is d key p h = elim (Option-cases (lookup key d)) [
  | inl missing ↦ absurd (ground (arith, rw (missing, partition_at) at h))
  | inr (q, found) ↦ found ∙ ap some (ok_inj (rw (found, partition_at) at h))
]

is_done : (m : Result RecoveryError (Unit {0})) → is_ok m ≡ true → m ≡ ok tt
is_done (ok done) h = refl
is_done (err e) h = absurd (ground arith)

-- The partition has a worker and another one than the first had.
abbrev pub new_worker : Option (Dict Json) → Option (Dict Json) → Bool
new_worker none after = false
new_worker (some p) none = false
new_worker (some p) (some q) =
    not (is_null (worker_of p) || (is_null (worker_of q) || same_json (worker_of p) (worker_of q)))

module _ (status : Json → String) where
  -- A partition that was completed has a worker, and the same one afterwards.
  abbrev pub same_worker : Dict Json → Option (Dict Json) → Bool
  same_worker p none = false
  same_worker p (some q) = not (is_null (worker_of p)) && same_json (worker_of q) (worker_of p)

  abbrev pub is_kept : Dict (Dict Json) → String × Dict Json → Bool
  is_kept after (key, p) = not (is_completed status p) || same_worker p (lookup key after)

  -- The same partitions, all of them completed now; those completed before were not run again, and
  -- the target was.
  abbrev pub IsRecovered : Dict (Dict Json) → Dict (Dict Json) → String → Type 0
  IsRecovered before after target =
      (same_set (keys before) (keys after) ≡ true)
      × (length after ≡ partitions)
      × (all (λ e. is_completed status (e.1)) after ≡ true)
      × (all (is_kept after) before ≡ true)
      × (new_worker (lookup target before) (lookup target after) ≡ true)

  check_reused-is_kept :
      (after before : Dict (Dict Json)) (done : Unit {0})
      → any (λ e. is_null (e.1)) (completed_workers status before) ≡ false
      → check_reused status after (completed_workers status before) ≡ ok done
      → all (is_kept after) before ≡ true
  unfolding completed_workers check_reused
  check_reused-is_kept after [] done h k = refl
  check_reused-is_kept after ((key, p) ∷ ps) done h k = elim (Bool-cases (is_completed status p)) [
    | inr open_still ↦ rw open_still (
        check_reused-is_kept after ps done (rw (open_still, completed_workers) at h)
          (rw (open_still, completed_workers) at k))
    | inl over ↦
        let some_worker = rw (over, completed_workers) at h in
        let (q, a, k1) = >>=-eq-ok (partition_at after key) _ (rw (over, completed_workers) at k) in
        let (same, k2) = require-eq-ok (same_json (worker_of q) (worker_of p)) _ _ k1 in
        and_intro _ _
          (rw (over, partition_at-is after key q a)
            (and_intro _ _ (ap not (or_left (is_null (worker_of p)) _ some_worker)) same))
          (check_reused-is_kept after ps done (or_right (is_null (worker_of p)) _ some_worker) k2)
  ]

  check_target-new_worker :
      (before after : Dict (Dict Json)) (target : String) (workers : Json × Json)
      → check_target status before after target ≡ ok workers
      → new_worker (lookup target before) (lookup target after) ≡ true
  unfolding check_target
  check_target-new_worker before after target workers h =
      let (p, a, h1) = >>=-eq-ok (partition_at before target) _ h in
      let (q, b, h2) = >>=-eq-ok (partition_at after target) _ h1 in
      let (fresh, h3) =
        reject_if-eq-ok
          (is_null (worker_of p)
            || (is_null (worker_of q) || same_json (worker_of p) (worker_of q)))
          _ _ h2 in
      rw (partition_at-is before target p a, partition_at-is after target q b) (ap not fresh)

  check_partitions-IsRecovered :
      (before after : Dict (Dict Json)) (target : String) (out : ℕ × (Json × Json))
      → check_partitions status before after target ≡ ok out
      → IsRecovered before after target
  unfolding check_partitions
  check_partitions-IsRecovered before after target out h =
      let (alike, h1) =
        require-eq-ok (same_set (keys before) (keys after) && nat_eq (length after) partitions) _ _
          h in
      let (finished, h2) = require-eq-ok (all (λ e. is_completed status (e.1)) after) _ _ h1 in
      let (some_over, h3) = reject_if-eq-ok (is_empty (completed_workers status before)) _ _ h2 in
      let (workers_known, h4) =
        reject_if-eq-ok (any (λ e. is_null (e.1)) (completed_workers status before)) _ _ h3 in
      let (reused, h5) =
        >>-eq-ok (check_reused status after (completed_workers status before)) _ h4 in
      let (workers, a, h6) = >>=-eq-ok (check_target status before after target) _ h5 in
      let size : nat_eq (length after) partitions ≡ true =
        and_right (same_set (keys before) (keys after)) _ alike in
      (
        and_left _ _ alike,
        ground arith,
        finished,
        check_reused-is_kept after before tt workers_known
            (is_done (check_reused status after (completed_workers status before)) reused),
        check_target-new_worker before after target workers a,
      )

  assert_final_recovery-IsRecovered :
      (before : Dict Json) (target : String) (old_pid pid : ℕ) (verified final : Dict Json)
      (report : Report)
      → assert_final_recovery status before target old_pid pid verified final ≡ ok report
      → (was : Dict (Dict Json)) × (now : Dict (Dict Json)) × (partition_map before ≡ ok was)
        × (partition_map final ≡ ok now)
        × (nat_eq pid old_pid ≡ false)
        × IsRecovered was now target
  unfolding assert_final_recovery
  assert_final_recovery-IsRecovered before target old_pid pid verified final report h =
      let (other_pid, h1) = reject_if-eq-ok (nat_eq pid old_pid) _ _ h in
      let (digest, a, h2) = >>=-eq-ok (check_verified verified) _ h1 in
      let (executions, h3) = >>-eq-ok (check_executions status before final) _ h2 in
      let (was, b, h4) = >>=-eq-ok (partition_map before) _ h3 in
      let (now, d, h5) = >>=-eq-ok (partition_map final) _ h4 in
      let (out, e, h6) = >>=-eq-ok (check_partitions status was now target) _ h5 in
      (was, now, b, d, other_pid, check_partitions-IsRecovered was now target out e)

  check_before-unfinished :
      (four_digits : ℕ → String) (before : Dict Json) (target boundary : String)
      (was : Dict (Dict Json))
      → is_ok (check_before status four_digits before target boundary) ≡ true
      → partition_map before ≡ ok was
      → (p : Dict Json) × (lookup target was ≡ some p)
        × (is_completed status p ≡ false)
        × (equals_num (get p "business_rows") (expected_rows boundary) ≡ true)
  unfolding check_before
  check_before-unfinished four_digits before target boundary was h read =
      let (running, h1) =
        require-eq-ok
          (contains nonterminal_statuses (status (get before "latest_execution_status"))) _ _
          (is_done (check_before status four_digits before target boundary) h) in
      let (found, a, h2) = >>=-eq-ok (partition_map before) _ h1 in
      let (p, b, h3) = >>=-eq-ok (partition_at found target) _ h2 in
      let (unfinished, h4) = reject_if-eq-ok (is_completed status p) _ _ h3 in
      let same : found ≡ was = ok_inj (sym a ∙ read) in
      (
        p,
        rw (← same) (partition_at-is found target p b),
        unfinished,
        sym (
              is_ok-require (equals_num (get p "business_rows") (expected_rows boundary))
                (wrong_business_rows (get p "business_rows")))
            ∙ ap is_ok h4,
      )

  -- If a crash case is accepted, then the partitions are the same 128 before and after the
  -- recovery, and all are completed after it. Those that were completed before have a worker and
  -- kept it; the target was not completed before, had written no rows or all of its rows according
  -- to the boundary, and has another worker afterwards.
  pub crash_case-IsRecovered :
      (four_digits : ℕ → String) (r : CrashRun) (workers : ℕ) (boundary : String) (report : Report)
      → crash_case status four_digits r workers boundary ≡ ok report
      → (was : Dict (Dict Json)) × (now : Dict (Dict Json)) × (target : Dict Json) × (partition_map
            r.before
          ≡ ok was)
        × (partition_map r.final ≡ ok now)
        × (lookup (target_of status four_digits workers) was ≡ some target)
        × (is_completed status target ≡ false)
        × (equals_num (get target "business_rows") (expected_rows boundary) ≡ true)
        × IsRecovered was now (target_of status four_digits workers)
  unfolding crash_case
  crash_case-IsRecovered four_digits r workers boundary report h =
      let (same_pid, h1) = require-eq-ok (equals_num (get r.marker "pid") r.crashed_pid) _ _ h in
      let (at_boundary, h2) =
        require-eq-ok
          (equals_text (get r.marker "partition_key") (target_of status four_digits workers)
            && equals_text (get r.marker "boundary") boundary)
          _ _ h1 in
      let (killed, h2b) = require-eq-ok r.killed _ _ h2 in
      let (gone, h3) = require-eq-ok r.gone _ _ h2b in
      let (checked, h4) =
        >>-eq-ok
          (check_before status four_digits r.before (target_of status four_digits workers) boundary)
          _ h3 in
      let (recovered, h5) = require-eq-ok r.recovered _ _ h4 in
      let (continued, h6) = require-eq-ok (nat_eq r.continuation_returncode 0) _ _ h5 in
      let (was, now, b, d, other_pid, done) =
        assert_final_recovery-IsRecovered r.before (target_of status four_digits workers)
          r.crashed_pid r.continuation_pid r.verified r.final report h6 in
      let (target, found, unfinished, wrote) =
        check_before-unfinished four_digits r.before (target_of status four_digits workers) boundary
          was checked b in
      (was, now, target, b, d, found, unfinished, wrote, done)
