-- ===== src/Preflight/Released.antt =====
-- What a successful run of the script guarantees.
use mathlib.Core.Path.{subst}
use oxide_batch_workloads.Base.{
  ◌≡◌, refl, ap, ◌∙◌, ℕ, zero, suc, ◌+◌, Bool, Option, none, some, List, ltb, Bool-cases, inl, inr,
  select,
}
use oxide_batch_workloads.Base.Dict.{Dict}
use oxide_batch_workloads.Base.Json.{Json}
use oxide_batch_workloads.Base.Result.{Result, ok, err, require, ok_inj}
use oxide_batch_workloads.Preflight.{
  PreflightError, missing_token, codeql_workflow, check_workflow, Outside, State, Candidate, api,
  item,
}
use oxide_batch_workloads.Preflight.Effects.{lift, act-eq-ok, lift-eq-ok}
use oxide_batch_workloads.Preflight.Metadata.{exact}
use oxide_batch_workloads.Preflight.Inspect.{ancestry}
use oxide_batch_workloads.Preflight.Discover.{workflow, candidates, known_ids}
use oxide_batch_workloads.Preflight.Answers.{Answers, api-Answers}
use oxide_batch_workloads.Preflight.Live.{
  Round, inspected, waiting, round, slept, after_round, after_prepared, poll, check_existing,
  settle, prepare, verify_live,
}
use oxide_batch_workloads.Preflight.Verified.{IsVerified, settle-IsVerified, round-IsVerified}

module _ {W : Type 0} (g : Outside W) (c : Candidate) where
  -- The id is that of the active CodeQL workflow, as GitHub answers when it is asked.
  abbrev pub IsOwn : Json → Type 0
  IsOwn workflow_id =
      (before : W) × (after : W) × (answer : Dict Json) × (wf : Dict Json) × (Answers g
        codeql_workflow before answer after)
      × (check_workflow answer ≡ ok wf)
      × (item wf "id" ≡ ok workflow_id)

  prepare-IsVerified :
      (has_token : Bool) (workflow_id : Json) (before : List Json) (chosen : Round) (s u : State W)
      → prepare g c has_token s ≡ (ok (workflow_id, before, chosen), u)
      → IsOwn workflow_id × (chosen ≡ inspected → (id : Json) × IsVerified g c workflow_id id)
  unfolding prepare workflow
  prepare-IsVerified has_token workflow_id before chosen s u h =
      let (x, a, h1) = lift-eq-ok (require has_token missing_token) _ s h in
      let (main, s2, b, h2) = act-eq-ok (ancestry g c) _ s h1 in
      let (wf, s3, d, h3) = act-eq-ok (workflow g c) _ s2 h2 in
      let (answer, s4, j, own) =
        act-eq-ok (api g codeql_workflow) (λ value. lift (check_workflow value)) s2 d in
      let (its_id, e, h4) = lift-eq-ok (item wf "id") _ s3 h3 in
      let (rows, s5, f, h5) = act-eq-ok (candidates g c its_id) _ s3 h4 in
      let (y, k, h6) = lift-eq-ok (check_existing (select (λ row. exact row c.sha) rows)) _ s5 h5 in
      let (choice, s7, l, h7) =
        act-eq-ok (settle g c its_id (known_ids rows) (select (λ row. exact row c.sha) rows)) _ s5
          h6 in
      let all_three = ok_inj (ap (λ p. p.0) h7) in
      let same_id : its_id ≡ workflow_id = ap (λ q. q.0) all_three in
      let own_id : IsOwn its_id = (
        s2.world,
        s4.world,
        answer,
        wf,
        api-Answers g codeql_workflow s2 s4 answer j,
        ap (λ p. p.0) own,
        e,
      ) in
      (
        subst IsOwn same_id own_id,
        λ reused.
            let settled =
              settle-IsVerified g c its_id (known_ids rows) (select (λ row. exact row c.sha) rows)
                s5 s7 (l ∙ ap (λ r. (ok r, s7)) (ap (λ q. q.2) all_three ∙ reused)) in
            (settled.0, subst (λ j. IsVerified g c j (settled.0)) same_id (settled.1)),
      )

  -- If a continuation succeeds, a run was verified.
  abbrev Verifies : Json → Option (Result PreflightError (Unit {0}) × State W) → Type 0
  Verifies workflow_id none = Unit
  Verifies workflow_id (some (err e, t)) = Unit
  Verifies workflow_id (some (ok done, t)) = (id : Json) × IsVerified g c workflow_id id

  after_round-Verifies :
      (k : Option Json → State W → Option (Result PreflightError (Unit {0}) × State W))
      (workflow_id : Json) (p : Result PreflightError Round × State W)
      → ((u : State W) → p ≡ (ok inspected, u) → (id : Json) × IsVerified g c workflow_id id)
      → ((next : Option Json) (t : State W) → Verifies workflow_id (k next t))
      → Verifies workflow_id (after_round k p)
  after_round-Verifies k workflow_id (err e, t) h l = tt
  after_round-Verifies k workflow_id (ok inspected, t) h l = h t refl
  after_round-Verifies k workflow_id (ok (waiting next), t) h l = l next t

  poll-Verifies :
      (fuel deadline poll_seconds : ℕ) (workflow_id : Json) (before : List Json)
      (selected : Option Json) (s : State W)
      → Verifies workflow_id (poll g c fuel deadline poll_seconds workflow_id before selected s)
  unfolding poll
  poll-Verifies zero deadline p workflow_id before selected s = tt
  poll-Verifies (suc fuel) deadline p workflow_id before selected s =
      elim (Bool-cases (ltb (g.monotonic s.world) deadline)) [
        | inl early ↦ rw early (
            after_round-Verifies _ workflow_id (round g c workflow_id before selected s)
              (λ u h. round-IsVerified g c workflow_id before selected s u h)
              (λ next t. poll-Verifies fuel deadline p workflow_id before next (slept g c p t)))
        | inr late ↦ rw late tt
      ]

  abbrev AllVerifies : Option (Result PreflightError (Unit {0}) × State W) → Type 0
  AllVerifies none = Unit
  AllVerifies (some (err e, t)) = Unit
  AllVerifies (some (ok done, t)) =
      (workflow_id : Json) × IsOwn workflow_id × (id : Json) × IsVerified g c workflow_id id

  after_prepared-AllVerifies :
      (k : Json
        → List Json
        → Option Json
        → State W
        → Option (Result PreflightError (Unit {0}) × State W))
      (p : Result PreflightError (Json × List Json × Round) × State W)
      → ((workflow_id : Json) (before : List Json) (chosen : Round) (u : State W)
          → p ≡ (ok (workflow_id, before, chosen), u)
          → IsOwn workflow_id × (chosen ≡ inspected → (id : Json) × IsVerified g c workflow_id id))
      → ((workflow_id : Json) (before : List Json) (selected : Option Json) (u : State W)
          → Verifies workflow_id (k workflow_id before selected u))
      → AllVerifies (after_prepared k p)
  after_prepared-AllVerifies k (err e, t) h l = tt
  after_prepared-AllVerifies k (ok (workflow_id, before, inspected), t) h l =
      let (own, settled) = h workflow_id before inspected t refl in
      let (id, verified) = settled refl in (workflow_id, own, id, verified)
  after_prepared-AllVerifies k (ok (workflow_id, before, waiting selected), t) h l =
      widen (k workflow_id before selected t) (l workflow_id before selected t)
    where
      widen :
          (o : Option (Result PreflightError (Unit {0}) × State W))
          → Verifies workflow_id o
          → AllVerifies o
      widen none v = tt
      widen (some (err e, u)) v = tt
      widen (some (ok done, u)) v =
          (workflow_id, (h workflow_id before (waiting selected) t refl).0, v.0, v.1)

  -- If the script succeeds, then GitHub answered with the active CodeQL workflow, and for one run
  -- it answered with a record, jobs and artifacts that are accepted for that workflow and with the
  -- tree of the candidate; the artifacts of that run were then downloaded for every language, the
  -- verdict on the SARIF files passing and the source identity being the expected one; and after
  -- that GitHub answered once more that main contains the candidate.
  pub verify_live-IsVerified :
      (fuel : ℕ) (has_token : Bool) (timeout_seconds poll_seconds : ℕ) (s t : State W)
      → verify_live g c fuel has_token timeout_seconds poll_seconds s ≡ some (ok tt, t)
      → (workflow_id : Json) × IsOwn workflow_id × (id : Json) × IsVerified g c workflow_id id
  unfolding verify_live
  verify_live-IsVerified fuel has_token timeout_seconds poll_seconds s t h = subst AllVerifies h (
      after_prepared-AllVerifies _ (prepare g c has_token s)
        (λ workflow_id before chosen u same.
          prepare-IsVerified has_token workflow_id before chosen s u same)
        (λ workflow_id before selected u.
          poll-Verifies fuel (g.monotonic u.world + timeout_seconds) poll_seconds workflow_id before
            selected u))
