-- ===== src/Preflight/Verified.antt =====
-- The script succeeds only on evidence that it has verified.
use mathlib.Core.Path.{subst}
use oxide_batch_workloads.Base.{
  ◌≡◌, refl, sym, ap, ◌∙◌, ℕ, zero, suc, String, true, false, ◌&&◌, Option, List, [], ◌∷◌, arith,
  Bool-cases, Option-cases, List-cases, inl, inr, select,
}
use oxide_batch_workloads.Base.Dict.{Dict}
use oxide_batch_workloads.Base.Json.{Json}
use oxide_batch_workloads.Base.Result.{ok, is_ok, is_ok-require, require, ok_inj}
use oxide_batch_workloads.Preflight.{
  called_process, invalid_completed, languages, Download, Outside, State, Candidate, item, api, run,
  jobs, artifacts, commit, compare, main_ref, invalid_candidate, is_repo, is_sha,
}
use oxide_batch_workloads.Preflight.Effects.{act-eq-ok, lift-eq-ok, rethrow-eq-ok}
use oxide_batch_workloads.Preflight.Metadata.{metadata, exact, sarif_name, source_name}
use oxide_batch_workloads.Preflight.Checks.{
  expected_identity, manifest, main_of, check_reachable, tree_of,
}
use oxide_batch_workloads.Preflight.Answers.{Answers, Downloads, api-Answers, fetch-Downloads}
use oxide_batch_workloads.Preflight.Inspect.{
  check_metadata, evidence_available, check_language, language_loop, inspect, ancestry, tree,
}
use oxide_batch_workloads.Preflight.Live.{
  inspected, watch, round, active, completed, verify_completed, reuse, reuse_loop, selected_id,
  renew, unless_reused, settle, is_caught, check_selected, check_observed_runs, is_caught,
}

module _ {W : Type 0} (g : Outside W) (c : Candidate) where
  -- Both artifacts of the language are downloaded, one after the other: the verdict on the SARIF
  -- files passes, and the source identity is the expected one.
  abbrev pub HasProof : Json → Dict Json → Json → String → W → W → Type 0
  HasProof run_id found candidate_tree language w v =
      (sarif : Download) × (between : W) × (source : Download) × (Downloads g run_id
        (sarif_name c.sha language) w sarif between)
      × (sarif.passes language ≡ true)
      × (Downloads g run_id (source_name c.sha language) between source v)
      × (is_ok (manifest source.identities (expected_identity found c candidate_tree language))
          ≡ true)

  -- So it is for each of the languages, in their order.
  abbrev pub HaveProofs : Json → Dict Json → Json → List String → W → W → Type 0
  HaveProofs run_id found candidate_tree [] w v = w ≡ v
  HaveProofs run_id found candidate_tree (l ∷ ls) w v =
      (between : W) × HasProof run_id found candidate_tree l w between
      × HaveProofs run_id found candidate_tree ls between v

  -- Asked from the first world on, GitHub gives a reachable commit of main.
  abbrev pub IsReachable : W → W → Type 0
  IsReachable w v =
      (reference : Dict Json) × (main : String) × (compared : Dict Json) × (between : W) × (Answers
        g main_ref w reference between)
      × (main_of reference ≡ ok main)
      × (Answers g (compare c.sha main) between compared v)
      × (is_ok (check_reachable compared c.sha) ≡ true)

  -- Asked one after the other, GitHub gives a record of the run, of its jobs and of its artifacts
  -- that are accepted, and the tree of the candidate; then there is a proof for every language, and
  -- in the end main still contains the candidate.
  pub record IsVerified (workflow_id id : Json) : Type 0 where
    pub found : Dict Json
    pub its_jobs : Dict Json
    pub its_artifacts : Dict Json
    pub candidate : Dict Json
    pub candidate_tree : Json
    pub at_first : W
    pub after_run : W
    pub after_jobs : W
    pub after_artifacts : W
    pub after_commit : W
    pub after_downloads : W
    pub at_last : W
    pub gives_run : Answers g (run id) at_first found after_run
    pub gives_jobs : Answers g (jobs id) after_run its_jobs after_jobs
    pub gives_artifacts : Answers g (artifacts id) after_jobs its_artifacts after_artifacts
    pub accepted :
        is_ok (
          metadata g.fromisoformat
            (g.now after_artifacts)
            found
            workflow_id
            its_jobs
            its_artifacts
            c
            false)
        ≡ true
    pub gives_commit : Answers g (commit c.sha) after_artifacts candidate after_commit
    pub is_tree : tree_of candidate c.sha ≡ ok candidate_tree
    pub proved : HaveProofs id found candidate_tree languages after_commit after_downloads
    pub reachable : IsReachable after_downloads at_last

  check_language-HasProof :
      (id : Json) (found : Dict Json) (t : Json) (l : String) (s u : State W) (done : Unit {0})
      → check_language g c id found t l s ≡ (ok done, u)
      → HasProof id found t l s.world u.world
  unfolding check_language
  check_language-HasProof id found t l s u done h =
      let (sarif, s1, a, h1) = act-eq-ok _ _ s h in
      let (b, passed, h2) = lift-eq-ok (require (sarif.passes l) called_process) _ s1 h1 in
      let (source, s3, d, h3) = act-eq-ok _ _ s1 h2 in
      (
        sarif,
        s1.world,
        source,
        fetch-Downloads g c id (sarif_name c.sha l) s s1 sarif a,
        sym (is_ok-require (sarif.passes l) called_process) ∙ ap is_ok passed,
        subst (Downloads g id (source_name c.sha l) s1.world source) (ap (λ p. p.1.world) h3)
            (fetch-Downloads g c id (source_name c.sha l) s1 s3 source d),
        ap (λ p. is_ok (p.0)) h3,
      )

  language_loop-HaveProofs :
      (id : Json) (found : Dict Json) (t : Json) (ls : List String) (s u : State W)
      (done : Unit {0})
      → language_loop g c id found t ls s ≡ (ok done, u)
      → HaveProofs id found t ls s.world u.world
  unfolding language_loop
  language_loop-HaveProofs id found t [] s u done h = ap (λ p. p.1.world) h
  language_loop-HaveProofs id found t (l ∷ ls) s u done h =
      let (one, s1, a, h1) = act-eq-ok _ _ s h in
      (
        s1.world,
        check_language-HasProof id found t l s s1 one a,
        language_loop-HaveProofs id found t ls s1 u done h1,
      )

  ancestry-IsReachable :
      (s u : State W) (main : String) → ancestry g c s ≡ (ok main, u) → IsReachable s.world u.world
  unfolding ancestry
  ancestry-IsReachable s u main h =
      let (ok_candidate, a, h1) =
        lift-eq-ok (require (is_repo c.repo && is_sha c.sha) invalid_candidate) _ s h in
      let (reference, s1, b, h2) = act-eq-ok (api g main_ref) _ s h1 in
      let (its_main, d, h3) = lift-eq-ok (main_of reference) _ s1 h2 in
      let (compared, s2, e, h4) = act-eq-ok (api g (compare c.sha its_main)) _ s1 h3 in
      let (done, f, h5) = lift-eq-ok (check_reachable compared c.sha) _ s2 h4 in
      (
        reference,
        its_main,
        compared,
        s1.world,
        api-Answers g main_ref s s1 reference b,
        d,
        subst (Answers g (compare c.sha its_main) s1.world compared) (ap (λ p. p.1.world) h5)
            (api-Answers g (compare c.sha its_main) s1 s2 compared e),
        ap is_ok f,
      )

  tree-Answers :
      (s u : State W) (found : Json)
      → tree g c s ≡ (ok found, u)
      → (d : Dict Json) × (Answers g (commit c.sha) s.world d u.world)
        × (tree_of d c.sha ≡ ok found)
  unfolding tree
  tree-Answers s u found h =
      let (d, s1, a, h1) = act-eq-ok (api g (commit c.sha)) _ s h in
      (
        d,
        subst (Answers g (commit c.sha) s.world d) (ap (λ p. p.1.world) h1)
            (api-Answers g (commit c.sha) s s1 d a),
        ap (λ p. p.0) h1,
      )

  inspect-IsVerified :
      (workflow_id id : Json) (s u : State W) (done : Unit {0})
      → inspect g c workflow_id id s ≡ (ok done, u)
      → IsVerified workflow_id id
  unfolding inspect check_metadata
  inspect-IsVerified workflow_id id s u done h =
      let (found, s1, a, h1) = act-eq-ok (api g (run id)) _ s h in
      let (its_jobs, s2, b, h2) = act-eq-ok (api g (jobs id)) _ s1 h1 in
      let (its_artifacts, s3, d, h3) = act-eq-ok (api g (artifacts id)) _ s2 h2 in
      let (whole, s4, accepted, h4) =
        act-eq-ok (check_metadata g c found workflow_id its_jobs its_artifacts false) _ s3 h3 in
      let unmoved : s3.world ≡ s4.world = ap (λ p. p.1.world) accepted in
      let (candidate_tree, s5, e, h5) = act-eq-ok (tree g c) _ s4 h4 in
      let (all_done, s6, looped, h6) =
        act-eq-ok (language_loop g c id found candidate_tree languages) _ s5 h5 in
      let (main, s7, reached, h7) = act-eq-ok (ancestry g c) _ s6 h6 in
      let (candidate, gives_commit, is_tree) = tree-Answers s4 s5 candidate_tree e in
      record {
        found = found;
        its_jobs = its_jobs;
        its_artifacts = its_artifacts;
        candidate = candidate;
        candidate_tree = candidate_tree;
        at_first = s.world;
        after_run = s1.world;
        after_jobs = s2.world;
        after_artifacts = s3.world;
        after_commit = s5.world;
        after_downloads = s6.world;
        at_last = s7.world;
        gives_run = api-Answers g (run id) s s1 found a;
        gives_jobs = api-Answers g (jobs id) s1 s2 its_jobs b;
        gives_artifacts = api-Answers g (artifacts id) s2 s3 its_artifacts d;
        accepted = ap (λ p. is_ok (p.0)) accepted;
        gives_commit =
            subst (λ w. Answers g (commit c.sha) w candidate s5.world) (sym unmoved) gives_commit;
        is_tree = is_tree;
        proved = language_loop-HaveProofs id found candidate_tree languages s5 s6 all_done looped;
        reachable = ancestry-IsReachable s6 s7 main reached;
      }

  watch-IsVerified :
      (workflow_id id : Json) (s u : State W)
      → watch g c workflow_id id s ≡ (ok inspected, u)
      → IsVerified workflow_id id
  unfolding watch
  watch-IsVerified workflow_id id s u h =
      let (state, s1, a, h1) = act-eq-ok _ _ s h in
      let (finished, b, h2) = lift-eq-ok (check_selected id state c.sha) _ s1 h1 in
      elim (Bool-cases finished) [
        | inl over ↦
            let (done, s3, d, h3) = act-eq-ok (inspect g c workflow_id id) _ s1 (rw over at h2) in
            inspect-IsVerified workflow_id id s1 s3 done d
        | inr early ↦ absurd (ground (arith, rw early at h2))
      ]

  pub round-IsVerified :
      (workflow_id : Json) (before : List Json) (selected : Option Json) (s u : State W)
      → round g c workflow_id before selected s ≡ (ok inspected, u)
      → (id : Json) × IsVerified workflow_id id
  unfolding round
  round-IsVerified workflow_id before selected s u h =
      let (main, s1, a, h1) = act-eq-ok _ _ s h in
      let (rows, s2, b, h2) = act-eq-ok _ _ s1 h1 in
      let (next, d, h3) =
        lift-eq-ok
          (check_observed_runs before c.sha selected (select (λ row. exact row c.sha) rows)) _ s2
          h2 in
      elim (Option-cases next) [
        | inl nothing ↦ absurd (ground (arith, rw nothing at h3))
        | inr (id, found) ↦ (id, watch-IsVerified workflow_id id s2 u (rw found at h3))
      ]

  reuse-IsVerified :
      (workflow_id id : Json) (s u : State W)
      → reuse g c workflow_id id s ≡ (ok true, u)
      → IsVerified workflow_id id
  unfolding reuse verify_completed
  reuse-IsVerified workflow_id id s u h =
      let (there, s1, a, h1) = act-eq-ok (evidence_available g c workflow_id id) _ s (
        rethrow-eq-ok is_caught (invalid_completed id) (verify_completed g c workflow_id id) s h) in
      elim (Bool-cases there) [
        | inl all_there ↦
            let (done, s2, b, h2) =
              act-eq-ok (inspect g c workflow_id id) _ s1 (rw all_there at h1) in
            inspect-IsVerified workflow_id id s1 s2 done b
        | inr gone ↦ absurd (ground (arith, rw gone at h1))
      ]

  reuse_loop-IsVerified :
      (workflow_id : Json) (rows : List (Dict Json)) (n : ℕ) (s u : State W)
      → reuse_loop g c workflow_id rows s ≡ (ok (suc n), u)
      → (id : Json) × IsVerified workflow_id id
  unfolding reuse_loop
  reuse_loop-IsVerified workflow_id [] n s u h = absurd (ground arith)
  reuse_loop-IsVerified workflow_id (row ∷ rows) n s u h =
      let (id, a, h1) = lift-eq-ok (item row "id") _ s h in
      let (verified, s1, b, h2) = act-eq-ok (reuse g c workflow_id id) _ s h1 in
      let (count, s2, d, h3) = act-eq-ok (reuse_loop g c workflow_id rows) _ s1 h2 in
      elim (Bool-cases verified) [
        | inl one ↦ (id, reuse-IsVerified workflow_id id s s1 (b ∙ rw one refl))
        | inr not_one ↦
            reuse_loop-IsVerified workflow_id rows n s1 s2
              (d ∙ ap (λ m. (ok m, s2)) (ok_inj (ap (λ p. p.0) (rw not_one at h3))))
      ]

  unless_reused-IsVerified :
      (workflow_id : Json) (before : List Json) (n : ℕ) (s u t : State W) (rows : List (Dict Json))
      → reuse_loop g c workflow_id rows s ≡ (ok n, u)
      → unless_reused g c workflow_id before n u ≡ (ok inspected, t)
      → (id : Json) × IsVerified workflow_id id
  unfolding unless_reused
  unless_reused-IsVerified workflow_id before zero s u t rows reused h =
      let (selected, s1, a, h1) = act-eq-ok (renew g c workflow_id before) _ u h in
      absurd (ground arith)
  unless_reused-IsVerified workflow_id before (suc n) s u t rows reused h =
      reuse_loop-IsVerified workflow_id rows n s u reused

  pub settle-IsVerified :
      (workflow_id : Json) (before : List Json) (rows : List (Dict Json)) (s u : State W)
      → settle g c workflow_id before rows s ≡ (ok inspected, u)
      → (id : Json) × IsVerified workflow_id id
  unfolding settle
  settle-IsVerified workflow_id before rows s u h = elim (List-cases (active rows)) [
    | inr (row, more, found) ↦
        let (selected, a, h1) = lift-eq-ok (selected_id row) _ s (rw (found, settle) at h) in
        absurd (ground arith)
    | inl nothing ↦
        let (count, s1, a, h1) =
          act-eq-ok (reuse_loop g c workflow_id (completed rows))
            (unless_reused g c workflow_id before) s (rw (nothing, settle) at h) in
        unless_reused-IsVerified workflow_id before count s s1 u (completed rows) a h1
  ]
