-- ===== src/Preflight/Inspect.antt =====
-- `ancestry`, `evidence_available`, `tree` and `inspect`: the calls that check one run.
use oxide_batch_workloads.Base.{String, Bool, true, false, ◌&&◌, none, some, List, [], ◌∷◌}
use oxide_batch_workloads.Base.Dict.{Dict}
use oxide_batch_workloads.Base.Json.{Json}
use oxide_batch_workloads.Base.Text.{is_lower_hex}
use oxide_batch_workloads.Base.Result.{ok, err, require}
use oxide_batch_workloads.Preflight.{
  PreflightError, invalid_candidate, changed_identity, called_process, languages, main_ref, compare,
  run, jobs, artifacts, commit, Download, Outside, State, Candidate, is_sha, is_repo, api,
}
use oxide_batch_workloads.Preflight.Effects.{Act, lift, returns, ◌>>=◌, ◌>>◌}
use oxide_batch_workloads.Preflight.Metadata.{exact, metadata, sarif_name, source_name}
use oxide_batch_workloads.Preflight.Checks.{
  main_of, check_reachable, tree_of, expected_identity, manifest,
}

module _ {W : Type 0} (g : Outside W) (c : Candidate) where
  unfoldable pub ancestry : Act (State W) PreflightError String
  unfolding is_repo is_lower_hex api main_of check_reachable
  ancestry = do
    lift (require (is_repo c.repo && is_sha c.sha) invalid_candidate)
    reference ← api g main_ref
    main ← lift (main_of reference)
    compared ← api g (compare c.sha main)
    lift (check_reachable compared c.sha)
    returns main

  -- `metadata` at this moment.
  unfoldable pub check_metadata :
      Dict Json → Json → Dict Json → Dict Json → Bool → Act (State W) PreflightError Bool
  unfolding metadata
  check_metadata found workflow_id its_jobs its_artifacts allow_missing s = (
    metadata g.fromisoformat (g.now s.world) found workflow_id its_jobs its_artifacts c
        allow_missing,
    s,
  )

  unfoldable pub evidence_available : Json → Json → Act (State W) PreflightError Bool
  unfolding api exact check_metadata
  evidence_available workflow_id run_id = do
    found ← api g (run run_id)
    lift (require (exact found c.sha) changed_identity)
    its_jobs ← api g (jobs run_id)
    its_artifacts ← api g (artifacts run_id)
    check_metadata found workflow_id its_jobs its_artifacts true

  unfoldable pub tree : Act (State W) PreflightError Json
  unfolding api tree_of
  tree = api g (commit c.sha) >>= λ value. lift (tree_of value c.sha)

  unfoldable pub fetch : Json → String → Act (State W) PreflightError Download
  fetch run_id name s = (
    elim ((g.download run_id name s.world).0) [ none ↦ err called_process | some d ↦ ok d ],
    record { dispatches = s.dispatches; world = (g.download run_id name s.world).1 },
  )

  -- The two downloads of one language.
  unfoldable pub check_language :
      Json → Dict Json → Json → String → Act (State W) PreflightError (Unit {0})
  unfolding fetch manifest
  check_language run_id found candidate_tree language = do
    sarif ← fetch run_id (sarif_name c.sha language)
    lift (require (sarif.passes language) called_process)
    source ← fetch run_id (source_name c.sha language)
    lift (manifest source.identities (expected_identity found c candidate_tree language))

  unfoldable pub language_loop :
      Json → Dict Json → Json → List String → Act (State W) PreflightError (Unit {0})
  unfolding check_language
  language_loop run_id found candidate_tree [] = returns tt
  language_loop run_id found candidate_tree (l ∷ ls) =
      check_language run_id found candidate_tree l >> language_loop run_id found candidate_tree ls

  unfoldable pub inspect : Json → Json → Act (State W) PreflightError (Unit {0})
  unfolding api check_metadata tree language_loop ancestry
  inspect workflow_id run_id = do
    found ← api g (run run_id)
    its_jobs ← api g (jobs run_id)
    its_artifacts ← api g (artifacts run_id)
    check_metadata found workflow_id its_jobs its_artifacts false
    candidate_tree ← tree
    language_loop run_id found candidate_tree languages
    ancestry
    returns tt
