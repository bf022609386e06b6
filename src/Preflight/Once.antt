-- ===== src/Preflight/Once.antt =====
-- The script asks for at most one new analysis.
use mathlib.Core.Path.{subst}
use oxide_batch_workloads.Base.{
  ◌≡◌, refl, ◌∙◌, ℕ, zero, suc, ◌+◌, ◌≤◌, Bool, Option, none, some, List, arith, ltb, Bool-cases,
  List-cases, inl, inr, select,
}
use oxide_batch_workloads.Base.Dict.{Dict}
use oxide_batch_workloads.Base.Json.{Json}
use oxide_batch_workloads.Base.Result.{Result, ok, err}
use oxide_batch_workloads.Preflight.{PreflightError, Outside, State, Candidate, api, dispatch}
use oxide_batch_workloads.Preflight.Effects.{Act, after, lift, returns, ◌>>=◌}
use oxide_batch_workloads.Preflight.Inspect.{fetch}
use oxide_batch_workloads.Preflight.Metadata.{exact}
use oxide_batch_workloads.Preflight.Discover.{known_ids}
use oxide_batch_workloads.Preflight.Live.{
  Round, inspected, waiting, round, slept, after_round, after_prepared, poll, active, completed,
  selected_id, renew, unless_reused, settle, prepare, verify_live,
}
use oxide_batch_workloads.Preflight.Reads.{
  Reading, ancestry-Keeps, workflow-Keeps, candidates-Keeps, round-Keeps, reuse_loop-Keeps, chain,
}

module _ {W : Type 0} (g : Outside W) (c : Candidate) where
  abbrev Silent : State W → State W → Type 0
  Silent s t = t.dispatches ≡ s.dispatches

  reads-Silent : Reading g c Silent
  unfolding api fetch
  reads-Silent = record {
    stays = λ s. refl;
    then_reads = λ s t u h l. l ∙ h;
    on_api = λ r s. refl;
    on_fetch = λ id name s. refl;
  }

  -- An action that dispatches at most once.
  abbrev Once : {A : Type 0} → Act (State W) PreflightError A → Type 0
  Once m = (s : State W) → (m s).1.dispatches ≤ s.dispatches + 1

  abbrev Quiet : {A : Type 0} → Act (State W) PreflightError A → Type 0
  Quiet m = (s : State W) → Silent s ((m s).1)

  after-Once :
      {A B : Type 0} (rest : A → Act (State W) PreflightError B) (n : ℕ)
      (p : Result PreflightError A × State W)
      → p.1.dispatches ≡ n
      → ((a : A) → Once (rest a))
      → (after rest (p.0) (p.1)).1.dispatches ≤ n + 1
  after-Once rest n (err e, t) h l = ground arith
  after-Once rest n (ok a, t) h l = rw (← h) (l a t)

  silent_first :
      {A B : Type 0} (m : Act (State W) PreflightError A)
      (rest : A → Act (State W) PreflightError B)
      → Quiet m
      → ((a : A) → Once (rest a))
      → Once (m >>= rest)
  unfolding ◌>>=◌
  silent_first m rest h l s = after-Once rest s.dispatches (m s) (h s) l

  after-Quiet :
      {A B : Type 0} (rest : A → Act (State W) PreflightError B) (n : ℕ)
      (p : Result PreflightError A × State W)
      → p.1.dispatches ≤ n
      → ((a : A) → Quiet (rest a))
      → (after rest (p.0) (p.1)).1.dispatches ≤ n
  after-Quiet rest n (err e, t) h l = h
  after-Quiet rest n (ok a, t) h l = rw (l a t) h

  silent_then :
      {A B : Type 0} (m : Act (State W) PreflightError A)
      (rest : A → Act (State W) PreflightError B)
      → Once m
      → ((a : A) → Quiet (rest a))
      → Once (m >>= rest)
  unfolding ◌>>=◌
  silent_then m rest h l s = after-Quiet rest (s.dispatches + 1) (m s) (h s) l

  silent-Once : {A : Type 0} (m : Act (State W) PreflightError A) → Quiet m → Once m
  silent-Once m h s = let same = h s in omega arith

  renew-Once : (workflow_id : Json) (before : List Json) → Once (renew g c workflow_id before)
  unfolding renew dispatch
  renew-Once workflow_id before =
      silent_then (dispatch g) _ (λ s. omega arith)
        (λ u.
          chain g c Silent reads-Silent _ _ (candidates-Keeps g c Silent reads-Silent workflow_id)
            (λ rows s. refl))

  unless_reused-Once :
      (workflow_id : Json) (before : List Json) (n : ℕ)
      → Once (unless_reused g c workflow_id before n)
  unfolding unless_reused
  unless_reused-Once workflow_id before zero =
      silent_then _ _ (renew-Once workflow_id before) (λ o s. refl)
  unless_reused-Once workflow_id before (suc n) = silent-Once (returns inspected) (λ s. refl)

  settle-Once :
      (workflow_id : Json) (before : List Json) (rows : List (Dict Json))
      → Once (settle g c workflow_id before rows)
  unfolding settle
  settle-Once workflow_id before rows = elim (List-cases (active rows)) [
    | inr (row, more, found) ↦
        rw (found, settle)
          (silent-Once (lift (selected_id row) >>= λ selected. returns (waiting selected))
            (chain g c Silent reads-Silent _ _ (λ s. refl) (λ o s. refl)))
    | inl nothing ↦
        rw (nothing, settle)
          (silent_first _ _ (reuse_loop-Keeps g c Silent reads-Silent workflow_id (completed rows))
            (unless_reused-Once workflow_id before))
  ]

  prepare-Once : (has_token : Bool) → Once (prepare g c has_token)
  unfolding prepare
  prepare-Once has_token =
      silent_first _ _ (λ s. refl)
        (λ u. silent_first _ _ (ancestry-Keeps g c Silent reads-Silent) (λ main.
          silent_first _ _ (workflow-Keeps g c Silent reads-Silent) (λ wf.
            silent_first _ _ (λ s. refl)
              (λ workflow_id.
                silent_first _ _ (candidates-Keeps g c Silent reads-Silent workflow_id) (λ rows.
                  silent_first _ _ (λ s. refl)
                    (λ v.
                      silent_then _ _
                        (settle-Once workflow_id (known_ids rows)
                          (select (λ row. exact row c.sha) rows))
                        (λ choice s. refl)))))))

  -- What a continuation leaves, if it ends.
  abbrev Ends : ℕ → Option (Result PreflightError (Unit {0}) × State W) → Type 0
  Ends n none = Unit
  Ends n (some (r, t)) = t.dispatches ≤ n

  after_round-Ends :
      (k : Option Json → State W → Option (Result PreflightError (Unit {0}) × State W)) (n : ℕ)
      (p : Result PreflightError Round × State W)
      → p.1.dispatches ≤ n
      → ((next : Option Json) → Ends n (k next (p.1)))
      → Ends n (after_round k p)
  after_round-Ends k n (err e, t) h l = h
  after_round-Ends k n (ok inspected, t) h l = h
  after_round-Ends k n (ok (waiting next), t) h l = l next

  poll-Ends :
      (fuel deadline poll_seconds : ℕ) (workflow_id : Json) (before : List Json)
      (selected : Option Json) (n : ℕ) (s : State W)
      → s.dispatches ≤ n
      → Ends n (poll g c fuel deadline poll_seconds workflow_id before selected s)
  unfolding poll
  poll-Ends zero deadline p id before selected n s h = tt
  poll-Ends (suc fuel) deadline p id before selected n s h =
      elim (Bool-cases (ltb (g.monotonic s.world) deadline)) [
        | inl early ↦
            let quiet = round-Keeps g c Silent reads-Silent id before selected s in
            rw early (
              after_round-Ends _ n (round g c id before selected s) (rw quiet h) (λ next.
                poll-Ends fuel deadline p id before next n
                  (slept g c p ((round g c id before selected s).1)) (rw quiet h)))
        | inr late ↦ rw late h
      ]

  after_prepared-Ends :
      (k : Json
        → List Json
        → Option Json
        → State W
        → Option (Result PreflightError (Unit {0}) × State W))
      (n : ℕ) (p : Result PreflightError (Json × List Json × Round) × State W)
      → p.1.dispatches ≤ n
      → ((id : Json) (before : List Json) (selected : Option Json)
          → Ends n (k id before selected (p.1)))
      → Ends n (after_prepared k p)
  after_prepared-Ends k n (err e, t) h l = h
  after_prepared-Ends k n (ok (id, before, inspected), t) h l = h
  after_prepared-Ends k n (ok (id, before, waiting selected), t) h l = l id before selected

  -- Whatever GitHub answers, and whether the script succeeds or not, it dispatches at most one
  -- new analysis.
  pub verify_live-once :
      (fuel : ℕ) (has_token : Bool) (timeout_seconds poll_seconds : ℕ) (s t : State W)
      (r : Result PreflightError (Unit {0}))
      → verify_live g c fuel has_token timeout_seconds poll_seconds s ≡ some (r, t)
      → t.dispatches ≤ s.dispatches + 1
  unfolding verify_live
  verify_live-once fuel has_token timeout_seconds poll_seconds s t r h =
      let one = prepare-Once has_token s in
      subst (Ends (s.dispatches + 1)) h (
        after_prepared-Ends _ (s.dispatches + 1) (prepare g c has_token s) one
          (λ id before selected.
            poll-Ends fuel _ poll_seconds id before selected (s.dispatches + 1) _ one))
