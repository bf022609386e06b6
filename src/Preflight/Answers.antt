-- ===== src/Preflight/Answers.antt =====
-- What GitHub answered and what was downloaded, where the script's calls succeed.
use oxide_batch_workloads.Base.{◌≡◌, refl, ap, ◌∙◌, String, some, arith, Option-cases, inl, inr}
use oxide_batch_workloads.Base.Dict.{Dict}
use oxide_batch_workloads.Base.Json.{Json, as_dict}
use oxide_batch_workloads.Base.Result.{ok, ok_inj}
use oxide_batch_workloads.Preflight.{
  Request, Reply, answered, failed, no_value, answer, Download, Outside, State, Candidate, api,
}
use oxide_batch_workloads.Preflight.Inspect.{fetch}

pair_eq : {A B : Type 0} {a : A} {b : B} (p : A × B) → p.0 ≡ a → p.1 ≡ b → p ≡ (a, b)
pair_eq (x, y) h k = cc

answered-eq-ok :
    (reply : Reply) (d : Dict Json)
    → answered reply ≡ ok d
    → (j : Json) × (reply ≡ answer j) × (as_dict j ≡ some d)
answered-eq-ok failed d h = absurd (ground arith)
answered-eq-ok no_value d h = absurd (ground arith)
answered-eq-ok (answer j) d h = elim (Option-cases (as_dict j)) [
  | inl missing ↦ absurd (ground (arith, rw (missing, answered) at h))
  | inr (e, found) ↦ (j, refl, found ∙ ap some (ok_inj (rw (found, answered) at h)))
]

module _ {W : Type 0} (g : Outside W) where
  -- Asked in the first world, GitHub answers the request with the object and leaves the second.
  abbrev pub Answers : Request → W → Dict Json → W → Type 0
  Answers r w d v = (j : Json) × (g.gh_get r w ≡ (answer j, v)) × (as_dict j ≡ some d)

  -- The artifact of the run is downloaded in the first world, and that leaves the second.
  abbrev pub Downloads : Json → String → W → Download → W → Type 0
  Downloads run_id name w d v = g.download run_id name w ≡ (some d, v)

  pub api-Answers :
      (r : Request) (s t : State W) (d : Dict Json)
      → api g r s ≡ (ok d, t)
      → Answers r s.world d t.world
  unfolding api
  api-Answers r s t d h =
      let (j, is_answer, is_object) = answered-eq-ok ((g.gh_get r s.world).0) d (ap (λ p. p.0) h) in
      (j, pair_eq (g.gh_get r s.world) is_answer (ap (λ p. p.1.world) h), is_object)

  pub fetch-Downloads :
      (c : Candidate) (run_id : Json) (name : String) (s t : State W) (d : Download)
      → fetch g c run_id name s ≡ (ok d, t)
      → Downloads run_id name s.world d t.world
  unfolding fetch
  fetch-Downloads c run_id name s t d h = elim (Option-cases ((g.download run_id name s.world).0)) [
    | inl nothing ↦ absurd (ground (arith, ap (λ p. p.0) (rw nothing at h)))
    | inr (e, found) ↦
        pair_eq (g.download run_id name s.world)
          (found ∙ ap some (ok_inj (ap (λ p. p.0) (rw found at h)))) (ap (λ p. p.1.world) h)
  ]
