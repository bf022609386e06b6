-- ===== src/Pipeline/Stage.antt =====
-- The exit status of the MSRV stage, from the exit codes of its runners.
use oxide_batch_workloads.Base.{
  ap, all, ◌≡◌, refl, ◌↔◌, ◌≢◌, sym, ◌∙◌, ℕ, String, Bool, true, not, ◌||◌, some, List, [], ◌∷◌,
  map, is_empty, distinct, All, arith, nat_eq, if◌then◌else◌, Option-cases, inl, inr, eq_iff,
}
use mathlib.Core.Option.{some-injective}
use oxide_batch_workloads.Base.Dict.{Dict, lookup}
use oxide_batch_workloads.Base.Json.{Json, get, as_dict, as_str, as_bool, truthy, fields, Fields}
use oxide_batch_workloads.Base.Result.{ok, err, >>=-eq-ok, ok_inj, traverse}
use oxide_batch_workloads.Aggregate.{
  ShardResult, expected_outcome_for, is_declared, Inputs, compute_verdict, exit_status,
}
use oxide_batch_workloads.Aggregate.Load.{expected_shard, include_of, load_expected, load_results}
use oxide_batch_workloads.Aggregate.Main.{main, MainArgs, verdict_status}
use oxide_batch_workloads.Aggregate.Groups.{for_workload, names}
use oxide_batch_workloads.Aggregate.Exact.{IsMet, IsExact, compute_verdict-ok_iff, no_extra-of}
use oxide_batch_workloads.Synthesis.{
  SynthesisError, Entry, parse_entries, parse_loop, parse_entry, policy_of, parse_name,
}
use oxide_batch_workloads.Synthesis.Laws.{entry_names, parse_entries-IsSound, parse_entry-Parsed}
use oxide_batch_workloads.Pipeline.Written.{written_files, written_files_lem}
use oxide_batch_workloads.Pipeline.Msrv.{
  expected_of, stage_results, load_stage_files, both_of_absent, stage_results-single, entry_result,
}

truthy-as_bool : (x : Json) {b : Bool} → as_bool x ≡ some b → truthy x ≡ b
truthy-as_bool (Json.bool c) h = ground arith
truthy-as_bool x h = absurd (ground arith)

-- `declared` is read alike by the two scripts.
is_declared-policy_of :
    (j : Json) (b : Bool) (m : Dict Json)
    → as_dict j ≡ some m
    → as_bool (get m "declared") ≡ some b
    → is_declared j ≡ some b
unfolding is_declared lookup
is_declared-policy_of (Json.obj Fields.end) b m h k = absurd (ground arith)
is_declared-policy_of (Json.obj (Fields.field key j fs)) b m h k =
    ap some (truthy-as_bool (get m' "declared") (rw (some-injective _ _ h) k))
  where
    m' : Dict Json
    m' = fields (Fields.field key j fs)
is_declared-policy_of j b m h k = absurd (ground arith)

policy_of-parts :
    (d : Dict Json) (b : Bool) (m : Dict Json)
    → policy_of d ≡ some (b, m)
    → (as_dict (get d "msrv") ≡ some m) × (as_bool (get m "declared") ≡ some b)
unfolding policy_of
policy_of-parts d b m h = ground arith

parse_name-as_str : (j : Json) (s : String) → parse_name j ≡ ok s → as_str j ≡ some s
unfolding parse_name
parse_name-as_str (Json.str t) s h = ground arith
parse_name-as_str j s h = absurd (ground arith)

-- An entry that `parse_entries` accepts is the shard that `_load_expected` expects.
expected_shard-parse_entry :
    (seen : List String) (raw : Json) (e : Entry)
    → parse_entry seen raw ≡ ok e
    → expected_shard "msrv" raw ≡ ok (expected_of e)
unfolding expected_shard expected_outcome_for
expected_shard-parse_entry seen raw e h =
    let q = parse_entry-Parsed seen raw h in
    let (is_policy, flag) = policy_of-parts q.dict e.declared q.msrv q.policy in
    rw (q.is_dict, expected_shard)
      (rw (parse_name-as_str (get q.dict "name") e.name q.named, expected_shard)
        (rw (
          is_declared-policy_of (get q.dict "msrv") e.declared q.msrv is_policy flag,
          expected_outcome_for,
        )))

traverse-parse_loop :
    (seen : List String) (raws : List Json) (es : List Entry)
    → parse_loop seen raws ≡ ok es
    → traverse (expected_shard "msrv") raws ≡ ok (map expected_of es)
unfolding parse_loop
traverse-parse_loop seen [] es h = rw (← (ok_inj h))
traverse-parse_loop seen (raw ∷ raws) es h =
    let (e, first, h') = >>=-eq-ok (parse_entry seen raw) _ h in
    let (rest, later, h'') = >>=-eq-ok (parse_loop (e.name ∷ seen) raws) _ h' in
    rw (
      expected_shard-parse_entry seen raw e first,
      traverse-parse_loop (e.name ∷ seen) raws rest later,
      ← (ok_inj h''),
    )

include-traverse :
    (raws : List Json) (es : List Entry)
    → (if is_empty raws then err SynthesisError.empty_include else parse_loop [] raws) ≡ ok es
    → traverse (expected_shard "msrv") raws ≡ ok (map expected_of es)
include-traverse [] es h = absurd (ground arith)
include-traverse (raw ∷ raws) es h = traverse-parse_loop [] (raw ∷ raws) es h

load_expected-parse_entries :
    (matrix : Json) (es : List Entry)
    → parse_entries (some matrix) ≡ ok es
    → load_expected (some matrix) "msrv" ≡ ok (map expected_of es)
unfolding parse_entries load_expected
load_expected-parse_entries matrix es h = elim (Option-cases (include_of matrix)) [
  | inl missing ↦ absurd (ground arith)
  | inr (raws, found) ↦
      rw (found, load_expected) (include-traverse raws es (rw (found, parse_entries) at h))
]

names-map : (es : List Entry) → names (map expected_of es) ≡ entry_names es
names-map [] = refl
names-map (e ∷ es) = ap (λ xs. e.name ∷ xs) (names-map es)

-- The entry needs no runner, or its runner exited with 0.
abbrev pub passed : (String → ℕ) → Entry → Bool
passed exit e = not e.declared || nat_eq (exit e.name) 0

module _ (source : String → String) (exit : String → ℕ) where
  abbrev stage_inputs : List Entry → Dict String → Inputs
  stage_inputs es job_statuses = record {
    expected = map expected_of es;
    results = stage_results source exit es;
    discovery_ok = true;
    upstream_job_ok = true;
    parse_errors = [];
    job_statuses = job_statuses;
  }

  All-IsMet-of_passed :
      (results : List ShardResult) (es : List Entry)
      → All (λ e. for_workload e.name results ≡ entry_result source exit e ∷ []) es
      → all (passed exit) es ≡ true
      → All (IsMet results) (map expected_of es)
  All-IsMet-of_passed results [] a h = tt
  All-IsMet-of_passed results (e ∷ es) (only, a) h = (
    record {
      result = entry_result source exit e;
      only = only;
      succeeded = ground arith;
      agrees = ground arith;
    },
    All-IsMet-of_passed results es a (ground arith),
  )

  passed-of_All-IsMet :
      (results : List ShardResult) (es : List Entry)
      → All (λ e. for_workload e.name results ≡ entry_result source exit e ∷ []) es
      → All (IsMet results) (map expected_of es)
      → all (passed exit) es ≡ true
  passed-of_All-IsMet results [] a ms = refl
  passed-of_All-IsMet results (e ∷ es) (only, a) (m, ms) = ground (
    arith,
    passed-of_All-IsMet results es a ms,
    m.only,
    m.succeeded,
    only,
    eq_iff "failure" "success",
  )

  IsExact-of_passed :
      (es : List Entry) (job_statuses : Dict String)
      → es ≢ []
      → distinct (entry_names es) ≡ true
      → all (passed exit) es ≡ true
      → IsExact (stage_inputs es job_statuses)
  IsExact-of_passed es job_statuses some_entry d h = record {
    discovered = refl;
    finished = refl;
    some_expected = ground arith;
    names_distinct = rw (names-map es) d;
    well_formed = refl;
    met =
        All-IsMet-of_passed (stage_results source exit es) es
          (stage_results-single source exit es d) h;
    no_extra =
        no_extra-of (names (map expected_of es)) (stage_results source exit es)
          (λ w m. both_of_absent source exit es w (rw (← names-map es) m));
  }

parse_loop-ne-nil :
    (raws : List Json) (es : List Entry)
    → (if is_empty raws then err SynthesisError.empty_include else parse_loop [] raws) ≡ ok es
    → es ≢ []
unfolding parse_loop
parse_loop-ne-nil [] es h = absurd (ground arith)
parse_loop-ne-nil (raw ∷ raws) es h =
    let (e, first, h') = >>=-eq-ok (parse_entry [] raw) _ h in
    let (rest, later, h'') = >>=-eq-ok (parse_loop (e.name ∷ []) raws) _ h' in
    rw (← (ok_inj h'')) (λ q. cc)

parse_entries-ne-nil :
    (matrix : Json) (es : List Entry) → parse_entries (some matrix) ≡ ok es → es ≢ []
unfolding parse_entries
parse_entries-ne-nil matrix es h = elim (Option-cases (include_of matrix)) [
  | inl missing ↦ absurd (ground arith)
  | inr (raws, found) ↦ parse_loop-ne-nil raws es (rw (found, parse_entries) at h)
]

-- A status of 0 is a verdict that is ok.
exit_status-zero_iff :
    (i : Inputs) → (exit_status (compute_verdict i) ≡ 0) ↔ ((compute_verdict i).ok ≡ true)
unfolding exit_status
exit_status-zero_iff i = ground arith

module _ (source : String → String) (exit : String → ℕ) (job_statuses : Dict String) where
  -- The arguments of the verdict's script, once the shard writer has written the result of every
  -- runner and the synthesis its own.
  abbrev pub stage_args : Json → List Entry → MainArgs
  stage_args matrix es = record {
    stage = "msrv";
    discover = some matrix;
    files = some (written_files source exit matrix es);
    discovery_ok = true;
    upstream_job_ok = true;
    job_statuses = job_statuses;
  }

  main-stage :
      (matrix : Json) (es : List Entry)
      → parse_entries (some matrix) ≡ ok es
      → main (stage_args matrix es)
        ≡ exit_status (compute_verdict (stage_inputs source exit es job_statuses))
  unfolding main load_results verdict_status
  main-stage matrix es p =
      rw (load_expected-parse_entries matrix es p, main) (rw written_loaded refl)
    where
      written_loaded :
          load_results (some (written_files source exit matrix es)) "msrv"
          ≡ ok (stage_results source exit es, [])
      written_loaded =
          rw (written_files_lem source exit matrix es p) (load_stage_files source exit es)

  -- For an accepted discovery output, once the shard writer has run on the exit code of the runner
  -- of each entry with a declared MSRV, and then the synthesis on the files that it wrote, and both
  -- upstream stages passed, the MSRV verdict exits with 0 exactly when every runner exited with 0.
  pub main-msrv_iff :
      (matrix : Json) (es : List Entry)
      → parse_entries (some matrix) ≡ ok es
      → (main (stage_args matrix es) ≡ 0) ↔ (all (passed exit) es ≡ true)
  main-msrv_iff matrix es p =
      let i : Inputs = stage_inputs source exit es job_statuses in
      let (sound, d) = parse_entries-IsSound (some matrix) p in
      let single = stage_results-single source exit es d in
      (
        λ h.
            let x =
              (compute_verdict-ok_iff i).0
                ((exit_status-zero_iff i).0 (sym (main-stage matrix es p) ∙ h)) in
            passed-of_All-IsMet source exit (stage_results source exit es) es single x.met,
        λ h.
            main-stage matrix es p
            ∙ (exit_status-zero_iff i).1 (
                (compute_verdict-ok_iff i).1 (
                  IsExact-of_passed source exit es job_statuses (parse_entries-ne-nil matrix es p) d
                    h)),
      )
