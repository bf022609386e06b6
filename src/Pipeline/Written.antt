-- ===== src/Pipeline/Written.antt =====
-- The results directory of the MSRV stage: the files of the runners, and those of the synthesis.
use oxide_batch_workloads.Base.{
  ◌≡◌, refl, ap, ◌∙◌, ℕ, String, true, false, some, none, List, [], ◌∷◌, ◌++◌, map, contains,
  distinct, arith, if◌then◌else◌, Bool-cases, inl, inr, append-nil,
}
use oxide_batch_workloads.Base.Json.{Json}
use oxide_batch_workloads.Base.Result.{ok}
use oxide_batch_workloads.Aggregate.Load.{ResultFile, load_files, load_results}
use oxide_batch_workloads.Shard
use oxide_batch_workloads.Shard.{build_result}
use oxide_batch_workloads.Synthesis.{Entry, Written, parse_entries, synthesize, workloads_of}
use oxide_batch_workloads.Synthesis.Laws.{
  entry_names, undeclared, no_collision, no_collision-cons, synthetic_file, synthesize_lem,
  parse_entries-IsSound,
}
use oxide_batch_workloads.Pipeline.Reading.{run_args, as_file, load_file-run, load_files-map}
use oxide_batch_workloads.Pipeline.Msrv.{
  declared_entries, run_file, run_result, synthesized_file, stage_files,
}

module _ (source : String → String) (exit : String → ℕ) where
  -- What `write-shard-result.py` writes for the exit code of an entry's runner.
  abbrev pub file_of_run : Entry → List ResultFile
  file_of_run e = elim ((Shard.main (run_args "msrv" e.name (exit e.name))).1) [
    | none ↦ []
    | some d ↦ as_file (source e.name) d ∷ []
  ]

  -- The files of the runners, one for each entry with a declared MSRV.
  abbrev pub run_files : List Entry → List ResultFile
  run_files [] = []
  run_files (e ∷ es) = if e.declared then file_of_run e ++ run_files es else run_files es

  abbrev pub as_result : Written → ResultFile
  as_result w = as_file "result.json" w.content

  -- Then the synthesis runs on those files, and adds its own.
  abbrev pub written_files : Json → List Entry → List ResultFile
  written_files matrix es =
      run_files es ++ map as_result ((synthesize (some matrix) (some (run_files es))).0)

  file_of_run_lem : (e : Entry) → file_of_run e ≡ run_file source exit e ∷ []
  unfolding Shard.main build_result
  file_of_run_lem e = refl

  run_files_lem :
      (es : List Entry) → run_files es ≡ map (run_file source exit) (declared_entries es)
  run_files_lem [] = refl
  run_files_lem (e ∷ es) = ground (arith, run_files_lem es, file_of_run_lem e)

  abbrev run_names : List Entry → List String
  run_names es = workloads_of (map (run_result source exit) (declared_entries es))

  run_names_of_absent :
      (es : List Entry) (w : String)
      → contains (entry_names es) w ≡ false
      → contains (run_names es) w ≡ false
  run_names_of_absent [] w h = refl
  run_names_of_absent (e ∷ es) w h = ground (arith, run_names_of_absent es w)

  no_collision-run_names :
      (es : List Entry) → distinct (entry_names es) ≡ true → no_collision (run_names es) es ≡ true
  no_collision-run_names [] d = refl
  no_collision-run_names (e ∷ es) d = elim (Bool-cases e.declared) [
    | inl declared ↦
        ground (arith, no_collision-run_names es, no_collision-cons e.name (run_names es) es)
    | inr not_declared ↦ ground (arith, no_collision-run_names es, run_names_of_absent es e.name)
  ]

  load_results-runs :
      (es : List Entry)
      → load_results (some (run_files es)) "msrv"
        ≡ ok (map (run_result source exit) (declared_entries es), [])
  unfolding load_results load_files
  load_results-runs es =
      rw
        (
          run_files_lem es,
          ← append-nil (map (run_file source exit) (declared_entries es)),
          ← append-nil (map (run_result source exit) (declared_entries es)),
        )
        (load_files-map "msrv" (run_file source exit) (run_result source exit) (declared_entries es)
          [] [] (λ e. load_file-run (source e.name) "msrv" e.name (exit e.name)) refl)

  map-synthetic :
      (es : List Entry)
      → map as_result (map synthetic_file es) ≡ map (synthesized_file source exit) es
  map-synthetic [] = refl
  map-synthetic (e ∷ es) = ground (arith, map-synthetic es)

  pub written_files_lem :
      (matrix : Json) (es : List Entry)
      → parse_entries (some matrix) ≡ ok es
      → written_files matrix es ≡ stage_files source exit es
  written_files_lem matrix es p =
      let (sound, d) = parse_entries-IsSound (some matrix) p in
      let written =
        synthesize_lem (some matrix) (some (run_files es)) p (load_results-runs es)
          (no_collision-run_names es d) in
      ap (λ ws. run_files es ++ map as_result (ws.0)) written
      ∙ (ap (λ fs. fs ++ map as_result (map synthetic_file (undeclared es))) (run_files_lem es)
          ∙ ap (λ fs. map (run_file source exit) (declared_entries es) ++ fs)
              (map-synthetic (undeclared es)))
