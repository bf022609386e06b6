-- ===== src/Aggregate/Loops.antt =====
-- The loops of `compute_verdict` on the verdict's flag: each one multiplies it by a test, and a
-- verdict that is ok has no reasons.
use oxide_batch_workloads.Base.{
  ◌≡◌, refl, ◌∙◌, String, Bool, true, false, not, ◌&&◌, ◌==◌, List, [], ◌∷◌, ltb, all, length,
  is_empty, sorted, all-sorted, arith, Bool-cases, inl, inr, and_assoc, ap,
}
use oxide_batch_workloads.Base.Dict.{Dict, insert, keys, has_key}
use oxide_batch_workloads.Aggregate.{
  ExpectedShard, ShardResult, Reason, Verdict, fail, for_each, index_expected, Grouped, entries_of,
  group_results, check_observed, check_entry, check_first, check_expected, required_outcome, Inputs,
  preliminary, check_all, compute_verdict, malformed, ParseError,
}

module _ {ℓ} {A : Type ℓ} where
  pub for_each-ok :
      (xs : List A) (body : A → Verdict → Verdict) (p : A → Bool) (v : Verdict)
      → ((a : A) (u : Verdict) → (body a u).ok ≡ (u.ok && p a))
      → (for_each xs body v).ok ≡ (v.ok && all p xs)
  unfolding for_each
  for_each-ok [] body p v h = ground arith
  for_each-ok (a ∷ xs) body p v h =
      for_each-ok xs body p (body a v) h
      ∙ (ap (λ b. b && all p xs) (h a v) ∙ and_assoc v.ok (p a) (all p xs))

-- No name is listed twice, nor stands in the dict already.
abbrev pub fresh : List ExpectedShard → Dict ExpectedShard → Bool
fresh [] d = true
fresh (e ∷ es) d = not (has_key d e.name) && fresh es (insert e.name e d)

pub index_expected-ok :
    (es : List ExpectedShard) (d : Dict ExpectedShard) (v : Verdict)
    → (index_expected es d v).1.ok ≡ (v.ok && fresh es d)
unfolding index_expected fail
index_expected-ok [] d v = ground arith
index_expected-ok (e ∷ es) d v = elim (Bool-cases (has_key d e.name)) [
  | inl old ↦
      ground (
        arith,
        index_expected-ok es (insert e.name e d) (fail v (Reason.duplicate_expected e.name)),
      )
  | inr new ↦ ground (arith, index_expected-ok es (insert e.name e d) v)
]

-- The dict that the loop builds does not depend on the verdict.
abbrev pub indexed : List ExpectedShard → Dict ExpectedShard → Dict ExpectedShard
indexed [] d = d
indexed (e ∷ es) d = indexed es (insert e.name e d)

pub index_expected-indexed :
    (es : List ExpectedShard) (d : Dict ExpectedShard) (v : Verdict)
    → (index_expected es d v).0 ≡ indexed es d
unfolding index_expected
index_expected-indexed [] d v = refl
index_expected-indexed (e ∷ es) d v = index_expected-indexed es (insert e.name e d) _

abbrev pub observed_good : Dict ExpectedShard → Grouped → String → Bool
observed_good expected grouped w = not (ltb 1 (length (entries_of grouped w))) && has_key expected w

pub check_observed-ok :
    (expected : Dict ExpectedShard) (grouped : Grouped) (w : String) (v : Verdict)
    → (check_observed expected grouped w v).ok ≡ (v.ok && observed_good expected grouped w)
unfolding check_observed
check_observed-ok expected grouped w v = ground arith

abbrev pub first_good : List ShardResult → String → Bool
first_good [] required = false
first_good (entry ∷ more) required = entry.status == "success" && entry.outcome == required

abbrev pub expected_good : Dict ExpectedShard → Grouped → String → Bool
expected_good expected grouped w = first_good (entries_of grouped w) (required_outcome expected w)

check_first-ok :
    (expected : Dict ExpectedShard) (statuses : Dict String) (w : String) (es : List ShardResult)
    (v : Verdict)
    → (check_first expected statuses w es v).ok
      ≡ (v.ok && first_good es (required_outcome expected w))
unfolding check_entry fail
check_first-ok expected statuses w [] v = ground arith
check_first-ok expected statuses w (entry ∷ more) v = ground arith

pub check_expected-ok :
    (expected : Dict ExpectedShard) (grouped : Grouped) (statuses : Dict String) (w : String)
    (v : Verdict)
    → (check_expected expected grouped statuses w v).ok ≡ (v.ok && expected_good expected grouped w)
unfolding check_expected
check_expected-ok expected grouped statuses w v =
    check_first-ok expected statuses w (entries_of grouped w) v

abbrev never {ℓ} : {A : Type ℓ} → A → Bool
never a = false

all-never : (es : List ParseError) → all never es ≡ is_empty es
all-never [] = refl
all-never (e ∷ es) = refl

preliminary-ok : (i : Inputs) → (preliminary i).ok ≡ (i.discovery_ok && not (is_empty i.expected))
unfolding preliminary fail
preliminary-ok i = ground arith

abbrev pub checks_good : Dict ExpectedShard → Inputs → Bool
checks_good by_name i =
    let grouped : Grouped = group_results i.results [] in
    is_empty i.parse_errors
    && (all (observed_good by_name grouped) (keys grouped)
        && (all (expected_good by_name grouped) (keys by_name) && i.upstream_job_ok))

check_all-ok :
    (by_name : Dict ExpectedShard) (i : Inputs) (v : Verdict)
    → (check_all by_name i v).ok ≡ (v.ok && checks_good by_name i)
unfolding check_all fail
check_all-ok by_name i v =
    let grouped : Grouped = group_results i.results [] in
    let v1 : Verdict = for_each i.parse_errors (λ e u. fail u (malformed e)) v in
    let v2 : Verdict = for_each (sorted (keys grouped)) (check_observed by_name grouped) v1 in
    let e1 =
      for_each-ok i.parse_errors (λ e u. fail u (malformed e)) never v (λ e u. ground arith) in
    let e2 =
      for_each-ok (sorted (keys grouped)) (check_observed by_name grouped)
        (observed_good by_name grouped) v1 (check_observed-ok by_name grouped) in
    let e3 =
      for_each-ok (sorted (keys by_name)) (check_expected by_name grouped i.job_statuses)
        (expected_good by_name grouped) v2 (check_expected-ok by_name grouped i.job_statuses) in
    ground (
      arith,
      e1,
      e2,
      e3,
      all-never i.parse_errors,
      all-sorted (observed_good by_name grouped) (keys grouped),
      all-sorted (expected_good by_name grouped) (keys by_name),
    )

-- Everything that the verdict tests, in one Boolean.
abbrev pub all_good : Inputs → Bool
all_good i =
    ((i.discovery_ok && not (is_empty i.expected)) && fresh i.expected [])
    && checks_good (indexed i.expected []) i

pub compute_verdict-ok : (i : Inputs) → (compute_verdict i).ok ≡ all_good i
unfolding compute_verdict
compute_verdict-ok i =
    let e = index_expected-ok i.expected [] (preliminary i) in
    let c =
      check_all-ok (index_expected i.expected [] (preliminary i)).0 i
        (index_expected i.expected [] (preliminary i)).1 in
    c ∙ rw (index_expected-indexed i.expected [] (preliminary i), e, preliminary-ok i) refl
