-- ===== src/Preflight/Reads.antt =====
-- A relation of states that every call of the API and every download keeps is kept by all the
-- code that only makes such calls.
use oxide_batch_workloads.Base.{
  ℕ, String, Bool, true, false, Option, List, [], ◌∷◌, Bool-cases, Option-cases, inl, inr, ltb,
  length,
}
use oxide_batch_workloads.Base.Dict.{Dict}
use oxide_batch_workloads.Base.Json.{Json}
use oxide_batch_workloads.Base.Result.{Result, ok, err}
use oxide_batch_workloads.Preflight.{
  PreflightError, Request, Outside, State, Candidate, languages, api,
}
use oxide_batch_workloads.Preflight.Effects.{Act, after, ◌>>=◌}
use oxide_batch_workloads.Preflight.Inspect.{
  ancestry, check_metadata, evidence_available, tree, fetch, check_language, language_loop, inspect,
}
use oxide_batch_workloads.Preflight.Discover.{pages, workflow, page_loop, candidates}
use oxide_batch_workloads.Preflight.Live.{watch, round, verify_completed, reuse, reuse_loop}

-- A reflexive and transitive relation that reading calls keep.
pub record Reading {W : Type 0} (g : Outside W) (c : Candidate) (R : State W → State W → Type 0)
    : Type 0 where
  pub stays : (s : State W) → R s s
  pub then_reads : (s t u : State W) → R s t → R t u → R s u
  pub on_api : (r : Request) (s : State W) → R s ((api g r s).1)
  pub on_fetch : (id : Json) (name : String) (s : State W) → R s ((fetch g c id name s).1)

module _ {W : Type 0} (g : Outside W) (c : Candidate) (R : State W → State W → Type 0)
    (k : Reading g c R) where
  abbrev Keeps : {A : Type 0} → Act (State W) PreflightError A → Type 0
  Keeps m = (s : State W) → R s ((m s).1)

  after-Keeps :
      {A B : Type 0} (rest : A → Act (State W) PreflightError B) (s : State W)
      (p : Result PreflightError A × State W)
      → R s (p.1)
      → ((a : A) (t : State W) → R t ((rest a t).1))
      → R s ((after rest (p.0) (p.1)).1)
  after-Keeps rest s (err e, t) h l = h
  after-Keeps rest s (ok a, t) h l = k.then_reads s t _ h (l a t)

  pub chain :
      {A B : Type 0} (m : Act (State W) PreflightError A)
      (rest : A → Act (State W) PreflightError B)
      → Keeps m
      → ((a : A) → Keeps (rest a))
      → Keeps (m >>= rest)
  unfolding ◌>>=◌
  chain m rest h l s = after-Keeps rest s (m s) (h s) l

  pub ancestry-Keeps : Keeps (ancestry g c)
  unfolding ancestry
  ancestry-Keeps = chain _ _ (k.stays) (λ u. chain _ _ (k.on_api _) (λ d.
      chain _ _ (k.stays)
        (λ main. chain _ _ (k.on_api _) (λ e. chain _ _ (k.stays) (λ v. k.stays)))))

  pub workflow-Keeps : Keeps (workflow g c)
  unfolding workflow
  workflow-Keeps = chain _ _ (k.on_api _) (λ d. k.stays)

  check_metadata-Keeps :
      (found : Dict Json) (id : Json) (js arts : Dict Json) (b : Bool)
      → Keeps (check_metadata g c found id js arts b)
  unfolding check_metadata
  check_metadata-Keeps found id js arts b s = k.stays s

  evidence_available-Keeps : (workflow_id id : Json) → Keeps (evidence_available g c workflow_id id)
  unfolding evidence_available
  evidence_available-Keeps workflow_id id = chain _ _ (k.on_api _) (λ found.
      chain _ _ (k.stays) (λ u. chain _ _ (k.on_api _) (λ js.
        chain _ _ (k.on_api _) (λ arts. check_metadata-Keeps found workflow_id js arts true))))

  tree-Keeps : Keeps (tree g c)
  unfolding tree
  tree-Keeps = chain _ _ (k.on_api _) (λ d. k.stays)

  check_language-Keeps :
      (id : Json) (found : Dict Json) (t : Json) (l : String)
      → Keeps (check_language g c id found t l)
  unfolding check_language
  check_language-Keeps id found t l =
      chain _ _ (k.on_fetch id _)
        (λ d. chain _ _ k.stays (λ u. chain _ _ (k.on_fetch id _) (λ e. k.stays)))

  language_loop-Keeps :
      (id : Json) (found : Dict Json) (t : Json) (ls : List String)
      → Keeps (language_loop g c id found t ls)
  unfolding language_loop
  language_loop-Keeps id found t [] = k.stays
  language_loop-Keeps id found t (l ∷ ls) =
      chain _ _ (check_language-Keeps id found t l) (λ u. language_loop-Keeps id found t ls)

  pub inspect-Keeps : (workflow_id id : Json) → Keeps (inspect g c workflow_id id)
  unfolding inspect
  inspect-Keeps workflow_id id = chain _ _ (k.on_api _) (λ found. chain _ _ (k.on_api _) (λ js.
      chain _ _ (k.on_api _) (λ arts.
        chain _ _ (check_metadata-Keeps found workflow_id js arts false) (λ b.
          chain _ _ tree-Keeps (λ t.
            chain _ _ (language_loop-Keeps id found t languages)
              (λ u. chain _ _ ancestry-Keeps (λ main. k.stays)))))))

  page_loop-Keeps :
      (event : String) (workflow_id : Json) (ps : List ℕ)
      → Keeps (page_loop g c event workflow_id ps)
  unfolding page_loop
  page_loop-Keeps event workflow_id [] = k.stays
  page_loop-Keeps event workflow_id (page ∷ more) = chain _ _ (k.on_api _) (λ payload.
      chain _ _ k.stays (λ rows. chain _ _ k.stays (λ own.
        elim (Bool-cases (ltb (length rows) 100)) [
          | inl last ↦ rw last k.stays
          | inr full ↦
              rw full (chain _ _ (page_loop-Keeps event workflow_id more) (λ rest. k.stays))
        ])))

  pub candidates-Keeps : (workflow_id : Json) → Keeps (candidates g c workflow_id)
  unfolding candidates
  candidates-Keeps workflow_id =
      chain _ _ (page_loop-Keeps "workflow_dispatch" workflow_id pages)
        (λ ds. chain _ _ (page_loop-Keeps "schedule" workflow_id pages) (λ ss. k.stays))

  watch-Keeps : (workflow_id id : Json) → Keeps (watch g c workflow_id id)
  unfolding watch
  watch-Keeps workflow_id id = chain _ _ (k.on_api _) (λ state. chain _ _ k.stays (λ done.
      elim (Bool-cases done) [
        | inl yes_done ↦ rw yes_done (chain _ _ (inspect-Keeps workflow_id id) (λ u. k.stays))
        | inr not_yet ↦ rw not_yet k.stays
      ]))

  pub round-Keeps :
      (workflow_id : Json) (before : List Json) (selected : Option Json)
      → Keeps (round g c workflow_id before selected)
  unfolding round
  round-Keeps workflow_id before selected = chain _ _ ancestry-Keeps (λ main.
      chain _ _ (candidates-Keeps workflow_id) (λ rows. chain _ _ k.stays (λ o.
        elim (Option-cases o) [
          | inl nothing ↦ rw nothing k.stays
          | inr (id, found) ↦ rw found (watch-Keeps workflow_id id)
        ])))

  reuse-Keeps : (workflow_id id : Json) → Keeps (reuse g c workflow_id id)
  unfolding reuse verify_completed
  reuse-Keeps workflow_id id = chain _ _ (evidence_available-Keeps workflow_id id) (λ b.
      elim (Bool-cases b) [
        | inl there ↦ rw there (chain _ _ (inspect-Keeps workflow_id id) (λ u. k.stays))
        | inr gone ↦ rw gone k.stays
      ])

  pub reuse_loop-Keeps :
      (workflow_id : Json) (rows : List (Dict Json)) → Keeps (reuse_loop g c workflow_id rows)
  unfolding reuse_loop
  reuse_loop-Keeps workflow_id [] = k.stays
  reuse_loop-Keeps workflow_id (row ∷ rows) = chain _ _ k.stays (λ id.
      chain _ _ (reuse-Keeps workflow_id id)
        (λ b. chain _ _ (reuse_loop-Keeps workflow_id rows) (λ n. k.stays)))
