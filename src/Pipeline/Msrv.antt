-- ===== src/Pipeline/Msrv.antt =====
-- The MSRV stage end to end.
use oxide_batch_workloads.Base.{
  ◌≡◌, refl, ◌∙◌, ℕ, String, Bool, true, false, not, ◌==◌, List, [], ◌∷◌, ◌++◌, map, contains,
  distinct, All, select, select-append, arith, if◌then◌else◌, eq_iff, eq_refl, append-nil,
}
use oxide_batch_workloads.Base.Result.{ok}
use oxide_batch_workloads.Aggregate.{ShardResult, ExpectedShard}
use oxide_batch_workloads.Aggregate.Load.{ResultFile, load_files}
use oxide_batch_workloads.Aggregate.Groups.{for_workload}
use oxide_batch_workloads.Shard.{validated_dict}
use oxide_batch_workloads.Synthesis.{Entry}
use oxide_batch_workloads.Synthesis.Laws.{entry_names, undeclared, synthetic_file}
use oxide_batch_workloads.Pipeline.Reading.{
  run_args, as_file, result_of_run, result_of_synthesis, load_file-run, load_file-synthesis,
  load_files-map,
}

abbrev pub declared_entries : List Entry → List Entry
declared_entries es = select (λ (e : Entry). e.declared) es

-- What `_load_expected` makes of an entry in the MSRV stage.
abbrev pub expected_of : Entry → ExpectedShard
expected_of e = record {
  name = e.name;
  expected_outcome = if e.declared then "validated" else "not-applicable";
}

module _ (source : String → String) (exit : String → ℕ) where
  -- The results directory: a file for each runner, then those that `synthesize` writes.
  abbrev pub run_file : Entry → ResultFile
  run_file e = as_file (source e.name) (validated_dict (run_args "msrv" e.name (exit e.name)))

  abbrev pub synthesized_file : Entry → ResultFile
  synthesized_file e = as_file "result.json" (synthetic_file e).content

  abbrev pub stage_files : List Entry → List ResultFile
  stage_files es = map run_file (declared_entries es) ++ map synthesized_file (undeclared es)

  abbrev pub run_result : Entry → ShardResult
  run_result e = result_of_run (source e.name) "msrv" e.name (exit e.name)

  abbrev pub synthesized_result : Entry → ShardResult
  synthesized_result e = result_of_synthesis "result.json" e.name

  abbrev pub stage_results : List Entry → List ShardResult
  stage_results es = map run_result (declared_entries es) ++ map synthesized_result (undeclared es)

  pub load_stage_files :
      (es : List Entry) → load_files "msrv" (stage_files es) ≡ ok (stage_results es, [])
  unfolding load_files
  load_stage_files es =
      load_files-map "msrv" run_file run_result (declared_entries es)
        (map synthesized_file (undeclared es)) (map synthesized_result (undeclared es))
        (λ e. load_file-run (source e.name) "msrv" e.name (exit e.name))
        (rw
          (
            ← append-nil (map synthesized_file (undeclared es)),
            ← append-nil (map synthesized_result (undeclared es)),
          )
          (load_files-map "msrv" synthesized_file synthesized_result (undeclared es) [] []
            (λ e. load_file-synthesis "result.json" e.name e.reason) refl))

-- The results of a workload among those of the selected entries.
module _ (p : Entry → Bool) (result : Entry → ShardResult)
    (keeps : (e : Entry) → (result e).workload ≡ e.name) where
  for_workload_of_absent :
      (es : List Entry) (w : String)
      → contains (entry_names es) w ≡ false
      → for_workload w (map result (select p es)) ≡ []
  for_workload_of_absent [] w h = refl
  for_workload_of_absent (e ∷ es) w h = ground (arith, for_workload_of_absent es w, keeps e)

  for_workload_of_present :
      (es : List Entry) (w : String) (e : Entry)
      → w ≡ e.name
      → contains (entry_names es) w ≡ false
      → for_workload w (map result (select p (e ∷ es))) ≡ (if p e then result e ∷ [] else [])
  for_workload_of_present es w e same h =
      ground (arith, for_workload_of_absent es w h, keeps e, eq_refl e.name)

  for_workload_of_later :
      (es : List Entry) (w : String) (e : Entry)
      → (e.name == w) ≡ false
      → for_workload w (map result (select p (e ∷ es))) ≡ for_workload w (map result (select p es))
  for_workload_of_later es w e other = ground (arith, keeps e)

All-later {ℓ κ} :
    {P : Entry → Type ℓ} {Q : Entry → Type κ} (es : List Entry) (x : String)
    → contains (entry_names es) x ≡ false
    → ((f : Entry) → (x == f.name) ≡ false → P f → Q f)
    → All P es
    → All Q es
All-later [] x h step a = tt
All-later (e ∷ es) x h step (p, a) = (
  step e (ground (arith, eq_iff x e.name, eq_iff e.name x)) p,
  All-later es x (ground arith) step a,
)

module _ (source : String → String) (exit : String → ℕ) where
  abbrev runs : List Entry → List ShardResult
  runs es = map (run_result source exit) (declared_entries es)

  abbrev syntheses : List Entry → List ShardResult
  syntheses es = map (synthesized_result source exit) (undeclared es)

  abbrev pub entry_result : Entry → ShardResult
  entry_result e = if e.declared then run_result source exit e else synthesized_result source exit e

  pub both_of_absent :
      (es : List Entry) (w : String)
      → contains (entry_names es) w ≡ false
      → for_workload w (stage_results source exit es) ≡ []
  both_of_absent es w h = ground (
    arith,
    select-append (λ (r : ShardResult). r.workload == w) (runs es) (syntheses es),
    for_workload_of_absent (λ e. e.declared) (run_result source exit) (λ e. refl) es w h,
    for_workload_of_absent (λ e. not e.declared) (synthesized_result source exit) (λ e. refl) es w
        h,
  )

  both_of_present :
      (es : List Entry) (e : Entry)
      → contains (entry_names es) e.name ≡ false
      → for_workload e.name (stage_results source exit (e ∷ es)) ≡ entry_result e ∷ []
  both_of_present es e h = ground (
    arith,
    select-append (λ (r : ShardResult). r.workload == e.name) (runs (e ∷ es)) (syntheses (e ∷ es)),
    for_workload_of_present (λ e. e.declared) (run_result source exit) (λ e. refl) es e.name e refl
        h,
    for_workload_of_present (λ e. not e.declared) (synthesized_result source exit) (λ e. refl) es
        e.name e refl h,
  )

  both_of_later :
      (es : List Entry) (e : Entry) (w : String)
      → (e.name == w) ≡ false
      → for_workload w (stage_results source exit (e ∷ es))
        ≡ for_workload w (stage_results source exit es)
  both_of_later es e w h = ground (
    arith,
    select-append (λ (r : ShardResult). r.workload == w) (runs (e ∷ es)) (syntheses (e ∷ es)),
    select-append (λ (r : ShardResult). r.workload == w) (runs es) (syntheses es),
    for_workload_of_later (λ e. e.declared) (run_result source exit) (λ e. refl) es w e h,
    for_workload_of_later (λ e. not e.declared) (synthesized_result source exit) (λ e. refl) es w e
        h,
  )

  -- Each entry has exactly one result.
  pub stage_results-single :
      (es : List Entry)
      → distinct (entry_names es) ≡ true
      → All (λ e. for_workload e.name (stage_results source exit es) ≡ entry_result e ∷ []) es
  stage_results-single [] d = tt
  stage_results-single (e ∷ es) d = (
    both_of_present es e (ground arith),
    All-later es e.name (ground arith) (λ f other p. both_of_later es e f.name other ∙ p)
        (stage_results-single es (ground arith)),
  )
