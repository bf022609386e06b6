-- ===== src/Aggregate/Exact.antt =====
-- The verdict of aggregate_verdict.py against a specification that knows no dict and no loop.
use oxide_batch_workloads.Base.{
  ◌≡◌, refl, ◌↔◌, ◌≢◌, sym, ◌∙◌, String, Bool, true, false, not, ◌==◌, List, [], ◌∷◌, all, contains,
  distinct, arith, eq_iff, eq_refl, All, all_of_contains, all_by_contains, Bool-cases, inl, inr,
  length, ltb,
}
use oxide_batch_workloads.Base.Dict.{Dict, keys, has_key}
use oxide_batch_workloads.Aggregate.{
  ExpectedShard, ShardResult, Inputs, compute_verdict, Grouped, group_results, required_outcome,
}
use oxide_batch_workloads.Aggregate.Loops.{
  indexed, observed_good, first_good, expected_good, all_good, compute_verdict-ok,
}
use oxide_batch_workloads.Aggregate.Groups.{
  for_workload, names, entries_of-group_results, has_key-group_results, has_key-indexed,
  fresh-distinct, required_outcome-indexed,
}

-- The entry's workload has exactly one result, a success with the outcome that the entry requires.
pub record IsMet (results : List ShardResult) (e : ExpectedShard) : Type 0 where
  pub result : ShardResult
  pub only : for_workload e.name results ≡ result ∷ []
  pub succeeded : result.status ≡ "success"
  pub agrees : result.outcome ≡ e.expected_outcome

-- An exact, complete, duplicate-free and policy-correct set of results, from stages that passed.
pub record IsExact (i : Inputs) : Type 0 where
  pub discovered : i.discovery_ok ≡ true
  pub finished : i.upstream_job_ok ≡ true
  pub some_expected : i.expected ≢ []
  pub names_distinct : distinct (names i.expected) ≡ true
  pub well_formed : i.parse_errors ≡ []
  pub met : All (IsMet i.results) i.expected
  pub no_extra : all (λ (r : ShardResult). contains (names i.expected) r.workload) i.results ≡ true

-- The two ways to say that only known workloads have results.
none_else :
    (ks : List String) (rs : List ShardResult) (w : String)
    → all (λ (r : ShardResult). contains ks r.workload) rs ≡ true
    → contains ks w ≡ false
    → for_workload w rs ≡ []
none_else ks [] w h m = refl
none_else ks (r ∷ rs) w h m = ground (arith, none_else ks rs w, eq_iff r.workload w)

pub no_extra-of :
    (ks : List String) (rs : List ShardResult)
    → ((w : String) → contains ks w ≡ false → for_workload w rs ≡ [])
    → all (λ (r : ShardResult). contains ks r.workload) rs ≡ true
no_extra-of ks [] h = refl
no_extra-of ks (r ∷ rs) h =
    ground
      (arith, h r.workload, eq_refl r.workload, no_extra-of ks rs (λ w m. ground (arith, h w m)))

abbrev single {ℓ} : {A : Type ℓ} → List A → Bool
single xs = not (ltb 1 (length xs))

-- The two loops' tests, over the input lists.
module _ (results : List ShardResult) where
  IsMet-of_good :
      (e : ExpectedShard) (es : List ShardResult)
      → for_workload e.name results ≡ es
      → first_good es e.expected_outcome ≡ true
      → single es ≡ true
      → IsMet results e
  IsMet-of_good e [] same good one = absurd (ground arith)
  IsMet-of_good e (r ∷ []) same good one = record {
    result = r;
    only = same;
    succeeded = ground (arith, eq_iff r.status "success");
    agrees = ground (arith, eq_iff r.outcome e.expected_outcome);
  }
  IsMet-of_good e (r ∷ s ∷ es) same good one = absurd (ground arith)

  good-of_IsMet :
      (e : ExpectedShard)
      → IsMet results e
      → first_good (for_workload e.name results) e.expected_outcome ≡ true
  good-of_IsMet e m = rw (m.only, m.succeeded, m.agrees, eq_refl e.expected_outcome)

  module _ (required : String → String) where
    All-IsMet :
        (es : List ExpectedShard)
        → All (λ e. required e.name ≡ e.expected_outcome) es
        → ((w : String)
            → contains (names es) w ≡ true
            → first_good (for_workload w results) (required w) ≡ true)
        → ((w : String) → single (for_workload w results) ≡ true)
        → All (IsMet results) es
    All-IsMet [] a good one = tt
    All-IsMet (e ∷ es) (same, a) good one = (
      IsMet-of_good e (for_workload e.name results) refl
          (rw (← same) (good e.name (ground (arith, eq_refl e.name)))) (one e.name),
      All-IsMet es a (λ w m. good w (ground arith)) one,
    )

    All-good :
        (es : List ExpectedShard)
        → All (λ e. required e.name ≡ e.expected_outcome) es
        → All (IsMet results) es
        → (w : String) → contains (names es) w ≡ true
        → (first_good (for_workload w results) (required w) ≡ true)
          × (single (for_workload w results) ≡ true)
    All-good [] a ms w m = absurd (ground arith)
    All-good (e ∷ es) (same, a) (met, ms) w m = elim (Bool-cases (e.name == w)) [
      | inl here ↦
          let at : e.name ≡ w = (eq_iff e.name w).0 here in
          rw (← at) (rw same (good-of_IsMet e met), rw (met.only))
      | inr there ↦ All-good es a ms w (ground arith)
    ]

module _ (i : Inputs) where
  abbrev by_name : Dict ExpectedShard
  by_name = indexed i.expected []

  abbrev grouped : Grouped
  grouped = group_results i.results []

  observed_at :
      all (observed_good by_name grouped) (keys grouped) ≡ true
      → (w : String)
      → (single (for_workload w i.results) ≡ true)
        × (contains (names i.expected) w ≡ false → for_workload w i.results ≡ [])
  observed_at h w = elim (Bool-cases (has_key grouped w)) [
    | inl present ↦ ground (
      arith,
      all_of_contains (observed_good by_name grouped) (keys grouped) w h present,
      entries_of-group_results i.results w,
      has_key-indexed i.expected w,
    )
    | inr missing ↦ ground (arith, has_key-group_results i.results w)
  ]

  observed_from :
      ((w : String) → single (for_workload w i.results) ≡ true)
      → ((w : String) → contains (names i.expected) w ≡ false → for_workload w i.results ≡ [])
      → all (observed_good by_name grouped) (keys grouped) ≡ true
  observed_from one nothing =
      all_by_contains (observed_good by_name grouped) (keys grouped) λ w present. ground (
        arith,
        one w,
        nothing w,
        entries_of-group_results i.results w,
        has_key-indexed i.expected w,
        has_key-group_results i.results w,
      )

  expected_at :
      all (expected_good by_name grouped) (keys by_name) ≡ true
      → (w : String) → contains (names i.expected) w ≡ true
      → first_good (for_workload w i.results) (required_outcome by_name w) ≡ true
  expected_at h w m = rw (← entries_of-group_results i.results w) (
      all_of_contains (expected_good by_name grouped) (keys by_name) w h
        (has_key-indexed i.expected w ∙ m))

  expected_from :
      ((w : String)
        → contains (names i.expected) w ≡ true
        → first_good (for_workload w i.results) (required_outcome by_name w) ≡ true)
      → all (expected_good by_name grouped) (keys by_name) ≡ true
  expected_from h = all_by_contains (expected_good by_name grouped) (keys by_name) λ w m.
      rw (entries_of-group_results i.results w) (h w (sym (has_key-indexed i.expected w) ∙ m))

  IsExact-of_good : all_good i ≡ true → IsExact i
  IsExact-of_good h =
      let d : distinct (names i.expected) ≡ true = ground (arith, fresh-distinct i.expected) in
      let o : all (observed_good by_name grouped) (keys grouped) ≡ true = ground arith in
      let x : all (expected_good by_name grouped) (keys by_name) ≡ true = ground arith in
      record {
        discovered = ground arith;
        finished = ground arith;
        some_expected = ground arith;
        names_distinct = d;
        well_formed = ground arith;
        met =
            All-IsMet i.results (required_outcome by_name) i.expected
              (required_outcome-indexed i.expected d) (expected_at x) (λ w. (observed_at o w).0);
        no_extra = no_extra-of (names i.expected) i.results (λ w. (observed_at o w).1);
      }

  good-of_IsExact : IsExact i → all_good i ≡ true
  good-of_IsExact x =
      let a =
        All-good i.results (required_outcome by_name) i.expected
          (required_outcome-indexed i.expected x.names_distinct) x.met in
      let one : (w : String) → single (for_workload w i.results) ≡ true = λ w.
        elim (Bool-cases (contains (names i.expected) w)) [
          | inl m ↦ (a w m).1
          | inr m ↦ rw (none_else (names i.expected) i.results w x.no_extra m)
        ] in
      let o = observed_from one (λ w. none_else (names i.expected) i.results w x.no_extra) in
      let e = expected_from (λ w m. (a w m).0) in
      ground (
        arith,
        fresh-distinct i.expected,
        x.discovered,
        x.finished,
        x.some_expected,
        x.names_distinct,
        x.well_formed,
      )

-- The verdict is ok exactly when discovery and the fan-out job passed, some workload is expected,
-- none twice, no result file is malformed, every expected workload has exactly one result, which
-- is a success with the outcome that its policy requires, and no other workload has a result.
pub compute_verdict-ok_iff : (i : Inputs) → ((compute_verdict i).ok ≡ true) ↔ IsExact i
compute_verdict-ok_iff i = (
  λ h. IsExact-of_good i (sym (compute_verdict-ok i) ∙ h),
  λ x. compute_verdict-ok i ∙ good-of_IsExact i x,
)
