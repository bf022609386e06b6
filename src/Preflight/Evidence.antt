-- ===== src/Preflight/Evidence.antt =====
-- What `metadata` accepts: the artifacts of all languages are there, alive and not empty.
use oxide_batch_workloads.Base.{
  ◌≡◌, refl, sym, ap, ◌∙◌, ℕ, ◌+◌, ◌≤◌, String, Bool, true, false, not, ◌&&◌, ◌||◌, ◌==◌, Option,
  none, some, List, [], ◌∷◌, arith, length, select, contains, distinct, all, all_of_contains,
  all_by_contains, contains-select, eq_iff, and_left, or_left, or_right, and_right, and_intro,
  Bool-cases, Option-cases, inl, inr, nat_eq, leb, is_some,
}
use oxide_batch_workloads.Base.Dict.{Dict}
use oxide_batch_workloads.Base.Json.{Json, get, as_dict, as_list, as_str, hashable, equals_num}
use oxide_batch_workloads.Base.SameJson.{same_json}
use oxide_batch_workloads.Base.Result.{
  ok, is_ok, Result-cases, require, ok_inj, ◌>>=◌, ◌>>◌, is_ok->>, is_ok-require, >>=-eq-ok,
  >>-eq-ok, require-eq-ok,
}
use oxide_batch_workloads.Preflight.{
  get_or_in, bad_listing, bad_artifact, type_error, Creation, Candidate,
}
use oxide_batch_workloads.Preflight.Metadata.{
  check_run_identity, check_created, check_jobs, name_in, expected_artifacts, artifact_names,
  check_names, is_positive, is_null, expiry, check_artifact, check_expiry, check_rows,
  check_artifacts, metadata,
}

-- The texts other than one.
abbrev without : String → List String → List String
without n xs = select (λ x. not (x == n)) xs

length-without : (n : String) (xs : List String) → length (without n xs) ≤ length xs
length-without n [] = ground arith
length-without n (x ∷ xs) = ground (arith, length-without n xs)

length-without-contains :
    (n : String) (xs : List String) → contains xs n ≡ true → length (without n xs) + 1 ≤ length xs
length-without-contains n [] h = ground arith
length-without-contains n (x ∷ xs) h =
    ground (arith, length-without n xs, length-without-contains n xs)

-- The other names are among the others.
used_without :
    (n : String) (names expected : List String)
    → distinct (n ∷ names) ≡ true
    → all (contains expected) (n ∷ names) ≡ true
    → all (contains (without n expected)) names ≡ true
used_without n names expected d h = all_by_contains (contains (without n expected)) names (λ a k.
    ground (
      arith,
      contains-select (λ x. not (x == n)) expected a,
      all_of_contains (contains expected) names a (and_right (contains expected n) _ h) k,
      eq_iff a n,
    ))

-- As many different texts of a list as it is long are all of it.
all_used :
    (names expected : List String) (e : String)
    → distinct names ≡ true
    → all (contains expected) names ≡ true
    → length expected ≤ length names
    → contains expected e ≡ true
    → contains names e ≡ true
all_used [] [] e d h l m = m
all_used [] (x ∷ xs) e d h l m = absurd (ground arith)
all_used (n ∷ names) expected e d h l m = elim (Bool-cases (n == e)) [
  | inl same ↦ ground arith
  | inr other ↦
      let later =
        all_used names (without n expected) e (ground arith) (used_without n names expected d h)
          (ground (arith, length-without-contains n expected))
          (ground
            (arith, contains-select (λ x. not (x == n)) expected e, eq_iff e n, eq_iff n e)) in
      ground arith
]

abbrev is_false : Json → Bool
is_false (Json.bool b) = not b
is_false j = false

-- The artifact is not empty and has not expired.
abbrev pub is_live : Json → Bool
is_live j = elim (as_dict j) [
  | none ↦ false
  | some row ↦ is_positive (get row "size_in_bytes") && is_false (get row "expired")
]

expiry-is_false : (j : Json) → expiry j ≡ ok false → is_false j ≡ true
expiry-is_false (Json.bool b) h = ground (arith, ok_inj h)
expiry-is_false Json.null h = absurd (ground arith)
expiry-is_false (Json.num n) h = absurd (ground arith)
expiry-is_false (Json.whole n) h = absurd (ground arith)
expiry-is_false (Json.number n) h = absurd (ground arith)
expiry-is_false (Json.str n) h = absurd (ground arith)
expiry-is_false (Json.arr n) h = absurd (ground arith)
expiry-is_false (Json.obj n) h = absurd (ground arith)

check_artifact-is_live :
    (found row : Dict Json)
    → check_artifact found row ≡ ok false
    → (is_positive (get row "size_in_bytes") && is_false (get row "expired")) ≡ true
unfolding check_artifact
check_artifact-is_live found row h =
    let (integer, h1) = require-eq-ok _ _ _ h in
    let (positive, h2) = require-eq-ok (is_positive (get row "size_in_bytes")) _ _ h1 in
    let (source, a, h3) = >>=-eq-ok (get_or_in row "workflow_run" "head_sha") _ h2 in
    let (own, h4) =
      require-eq-ok (is_null source || same_json source (get found "head_sha")) _ _ h3 in
    and_intro _ _ positive (expiry-is_false (get row "expired") h4)

check_expiry-is_live :
    (found : Dict Json) (js : List Json) → check_expiry found js ≡ ok false → all is_live js ≡ true
unfolding check_expiry
check_expiry-is_live found [] h = refl
check_expiry-is_live found (j ∷ js) h = elim (Option-cases (as_dict j)) [
  | inl missing ↦ absurd (ground (arith, rw (missing, check_expiry) at h))
  | inr (row, is_row) ↦
      let (gone, a, h1) =
        >>=-eq-ok (check_artifact found row)
          (λ gone. check_expiry found js >>= λ more. ok (gone || more))
          (rw (is_row, check_expiry) at h) in
      let (more, b, h2) = >>=-eq-ok (check_expiry found js) (λ more. ok (gone || more)) h1 in
      let neither : (gone || more) ≡ false = ok_inj h2 in
      and_intro _ _
        (rw (is_row, is_live)
          (check_artifact-is_live found row (a ∙ ap ok (or_left gone more neither))))
        (check_expiry-is_live found js (b ∙ ap ok (or_right gone more neither)))
]

length-artifact_names :
    (rows : List Json) (names : List String)
    → artifact_names rows ≡ some names
    → length names ≡ length rows
unfolding artifact_names
length-artifact_names [] names h = ground (arith, h)
length-artifact_names (j ∷ js) names h = elim (Option-cases (as_str (name_in j))) [
  | inl missing ↦ absurd (ground (arith, rw (missing, artifact_names) at h))
  | inr (n, is_name) ↦ elim (Option-cases (artifact_names js)) [
    | inl none_later ↦ absurd (ground (arith, rw (is_name, none_later, artifact_names) at h))
    | inr (ns, later) ↦
        let same : ◌≡◌ {A = Option (List String)} (some (n ∷ ns)) (some names) =
          rw (is_name, later, artifact_names) at h in
        ground (arith, length-artifact_names js ns later)
  ]
]

-- Every artifact of a candidate is listed, and all that are listed are not empty and not expired.
abbrev pub HasAll : Dict Json → String → Type 0
HasAll its_artifacts sha =
    (rows : List Json) × (names : List String) × (as_list (get its_artifacts "artifacts")
      ≡ some rows)
    × (artifact_names rows ≡ some names)
    × (all (contains names) (expected_artifacts sha) ≡ true)
    × (all is_live rows ≡ true)

check_names-contains :
    (sha : String) (rows : List Json)
    → is_ok (check_names sha rows) ≡ true
    → length rows ≡ 8
    → (names : List String) × (artifact_names rows ≡ some names)
      × (all (contains names) (expected_artifacts sha) ≡ true)
unfolding check_names
check_names-contains sha rows h eight = elim (Option-cases (artifact_names rows)) [
  | inl missing ↦ absurd (ground (arith, rw (missing, check_names) at h))
  | inr (names, found) ↦
      let right_names =
        require (distinct names && all (contains (expected_artifacts sha)) names) bad_artifact in
      let hashes = require (all (λ j. hashable (name_in j)) rows) type_error in
      let dicts = require (all (λ j. is_some (as_dict j)) rows) bad_artifact in
      let k = sym (is_ok->> dicts (hashes >> right_names)) ∙ (rw (found, check_names) at h) in
      let l = sym (is_ok->> hashes right_names) ∙ and_right (is_ok dicts) _ k in
      let both =
        sym (
          is_ok-require (distinct names && all (contains (expected_artifacts sha)) names)
            bad_artifact)
        ∙ and_right (is_ok hashes) _ l in
      (
        names,
        found,
        all_by_contains (contains names) (expected_artifacts sha) (λ e m.
            all_used names (expected_artifacts sha) e (and_left _ _ both)
              (and_right (distinct names) _ both)
              (rw (length-artifact_names rows names found) (rw eight (ground arith))) m),
      )
]

check_artifacts-HasAll :
    (found its_artifacts : Dict Json) (sha : String) (b : Bool)
    → check_artifacts found its_artifacts sha false ≡ ok b
    → HasAll its_artifacts sha
unfolding check_artifacts check_rows
check_artifacts-HasAll found its_artifacts sha b h =
    elim (Option-cases (as_list (get its_artifacts "artifacts"))) [
      | inl missing ↦ absurd (ground (arith, rw (missing, check_artifacts) at h))
      | inr (rows, is_rows) ↦
          let (listed, h1) =
            require-eq-ok
              (equals_num (get its_artifacts "total_count") (length rows) && leb (length rows) 8)
              bad_listing (check_rows found rows sha false) (rw (is_rows, check_artifacts) at h) in
          let (named, h2) = >>-eq-ok (check_names sha rows) _ h1 in
          let (expired, a, h3) = >>=-eq-ok (check_expiry found rows) _ h2 in
          elim (Bool-cases (not (nat_eq (length rows) 8) || expired)) [
            | inl lacking ↦ absurd (ground (arith, rw lacking at h3))
            | inr neither ↦
                let (names, found_names, all_there) =
                  check_names-contains sha rows named
                    (ground (arith, or_left (not (nat_eq (length rows) 8)) expired neither)) in
                (
                  rows,
                  names,
                  is_rows,
                  found_names,
                  all_there,
                  check_expiry-is_live found rows
                      (a ∙ ap ok (or_right (not (nat_eq (length rows) 8)) expired neither)),
                )
          ]
    ]

-- If the record of a run is accepted where nothing may be missing, then both artifacts of every
-- language are listed, and every listed artifact is not empty and has not expired.
pub metadata-HasAll :
    (fromisoformat : String → Creation) (now : ℕ) (found : Dict Json) (workflow_id : Json)
    (its_jobs its_artifacts : Dict Json) (c : Candidate)
    → is_ok (metadata fromisoformat now found workflow_id its_jobs its_artifacts c false) ≡ true
    → HasAll its_artifacts c.sha
unfolding metadata
metadata-HasAll fromisoformat now found workflow_id its_jobs its_artifacts c h =
    let k1 = sym (is_ok->> (check_run_identity found workflow_id c.repo) _) ∙ h in
    let k2 =
      sym (is_ok->> (check_created fromisoformat now found) _)
      ∙ and_right (is_ok (check_run_identity found workflow_id c.repo)) _ k1 in
    let k3 =
      sym (is_ok->> (check_jobs its_jobs) _)
      ∙ and_right (is_ok (check_created fromisoformat now found)) _ k2 in
    elim (Result-cases (check_artifacts found its_artifacts c.sha false)) [
      | inl (e, failed) ↦
          absurd (ground (arith, rw failed at (and_right (is_ok (check_jobs its_jobs)) _ k3)))
      | inr (b, accepted) ↦ check_artifacts-HasAll found its_artifacts c.sha b accepted
    ]
