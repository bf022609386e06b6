-- ===== src/Preflight/Bounded.antt =====
-- The loop ends: with enough fuel for the timeout there is always an outcome.
use oxide_batch_workloads.Base.{
  ◌≡◌, refl, ℕ, zero, suc, ◌+◌, ◌*◌, ◌≤◌, String, Bool, true, false, Option, List, is_some, arith,
  ltb, Bool-cases, inl, inr,
}
use oxide_batch_workloads.Base.Json.{Json}
use oxide_batch_workloads.Base.Result.{Result, ok, err}
use oxide_batch_workloads.Preflight.{PreflightError, Request, Outside, State, Candidate, api}
use oxide_batch_workloads.Preflight.Inspect.{fetch}
use oxide_batch_workloads.Preflight.Live.{
  Round, inspected, waiting, round, slept, after_round, after_prepared, poll, prepare, verify_live,
}
use oxide_batch_workloads.Preflight.Reads.{Reading, round-Keeps}

-- `time.monotonic` does not go backwards, and `time.sleep` takes the time that it is given.
pub record Forward {W : Type 0} (g : Outside W) : Type 0 where
  pub after_get : (r : Request) (w : W) → g.monotonic w ≤ g.monotonic ((g.gh_get r w).1)
  pub after_download :
      (id : Json) (name : String) (w : W) → g.monotonic w ≤ g.monotonic ((g.download id name w).1)
  pub after_sleep : (n : ℕ) (w : W) → g.monotonic w + n ≤ g.monotonic (g.sleep n w)

too_late : (deadline clock p : ℕ) → deadline ≤ clock + 0 * p → ltb clock deadline ≡ false
too_late deadline clock p h = ground arith

one_less :
    (deadline clock later slept fuel p : ℕ)
    → clock ≤ later
    → later + p ≤ slept
    → deadline ≤ clock + suc fuel * p
    → deadline ≤ slept + fuel * p
one_less deadline clock later slept fuel p h k l = omega arith

module _ {W : Type 0} (g : Outside W) (c : Candidate) (f : Forward g) where
  abbrev Later : State W → State W → Type 0
  Later s t = g.monotonic s.world ≤ g.monotonic t.world

  reads-Later : Reading g c Later
  unfolding api fetch
  reads-Later = record {
    stays = λ s. ground arith;
    then_reads = λ s t u h l. ground arith;
    on_api = λ r s. f.after_get r s.world;
    on_fetch = λ id name s. f.after_download id name s.world;
  }

  after_round-is_some :
      (k : Option Json → State W → Option (Result PreflightError (Unit {0}) × State W))
      (p : Result PreflightError Round × State W)
      → ((next : Option Json) → is_some (k next (p.1)) ≡ true)
      → is_some (after_round k p) ≡ true
  after_round-is_some k (err e, t) h = refl
  after_round-is_some k (ok inspected, t) h = refl
  after_round-is_some k (ok (waiting next), t) h = h next

  module _ (workflow_id : Json) (before : List Json) (deadline poll_seconds : ℕ) where
    poll-is_some :
        (fuel : ℕ) (selected : Option Json) (s : State W)
        → deadline ≤ g.monotonic s.world + fuel * poll_seconds
        → is_some (poll g c (suc fuel) deadline poll_seconds workflow_id before selected s) ≡ true
    unfolding poll
    poll-is_some zero selected s h =
        rw (too_late deadline (g.monotonic s.world) poll_seconds h) refl
    poll-is_some (suc fuel) selected s h = elim (Bool-cases (ltb (g.monotonic s.world) deadline)) [
      | inl early ↦
          let later = round-Keeps g c Later reads-Later workflow_id before selected s in
          rw early (
            after_round-is_some _ (round g c workflow_id before selected s) (λ next.
              poll-is_some fuel next
                (slept g c poll_seconds ((round g c workflow_id before selected s).1))
                (one_less deadline (g.monotonic s.world) _ _ fuel poll_seconds later
                  (f.after_sleep poll_seconds ((round g c workflow_id before selected s).1.world))
                  h)))
      | inr late ↦ rw late refl
    ]

  after_prepared-is_some :
      (k : Json
        → List Json
        → Option Json
        → State W
        → Option (Result PreflightError (Unit {0}) × State W))
      (p : Result PreflightError (Json × List Json × Round) × State W)
      → ((id : Json) (before : List Json) (selected : Option Json) (t : State W)
          → is_some (k id before selected t) ≡ true)
      → is_some (after_prepared k p) ≡ true
  after_prepared-is_some k (err e, t) h = refl
  after_prepared-is_some k (ok (id, before, inspected), t) h = refl
  after_prepared-is_some k (ok (id, before, waiting selected), t) h = h id before selected t

  -- If the clock does not go backwards and `sleep` takes the time that it is given, then the script
  -- ends: one round more than there are polls in the timeout is enough.
  pub verify_live-is_some :
      (has_token : Bool) (fuel timeout_seconds poll_seconds : ℕ) (s : State W)
      → timeout_seconds ≤ fuel * poll_seconds
      → is_some (verify_live g c (suc fuel) has_token timeout_seconds poll_seconds s) ≡ true
  unfolding verify_live
  verify_live-is_some has_token fuel timeout_seconds poll_seconds s h =
      after_prepared-is_some _ (prepare g c has_token s) (λ id before selected t.
        poll-is_some id before (g.monotonic t.world + timeout_seconds) poll_seconds fuel selected t
          (omega arith))
