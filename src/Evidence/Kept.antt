-- ===== src/Evidence/Kept.antt =====
-- What accepted records and an accepted retention section say of the files that are kept.
use oxide_batch_workloads.Base.{
  ◌≡◌, refl, sym, ap, ◌∙◌, ℕ, suc, ◌≤◌, String, Bool, true, false, not, ◌&&◌, ◌==◌, Option, none,
  some, List, [], ◌∷◌, contains, distinct, all, length, ltb, nat_eq, arith, eq_iff, Bool-cases,
  Option-cases, inl, inr, starts_with,
}
use oxide_batch_workloads.Base.Dict.{Dict}
use oxide_batch_workloads.Base.Json.{Json, get, as_dict, as_list, as_nat}
use oxide_batch_workloads.Base.Result.{
  ok, >>=-eq-ok, >>-eq-ok, reject_if-eq-ok, require-eq-ok, ok_inj, is_ok, is_ok-require,
  Result-cases,
}
use oxide_batch_workloads.Registry.{path_parts, same_keys}
use oxide_batch_workloads.Provenance.Repository.{last_part}
use oxide_batch_workloads.Evidence.{
  Field, plain, item, require_keys, require_string, require_hex, safe_path,
}
use oxide_batch_workloads.Evidence.Sections.{is_text}
use oxide_batch_workloads.Evidence.Validated.{same_set}
use oxide_batch_workloads.Evidence.Records.{
  ManifestError, wrong_count, wrong_total, wrong_layout, field, RetainedFile, Kept, compare_file,
  validate_retained, validate_input, is_dict, is_failure_point, validate_record, record_loop,
  validate_records, kept_paths, total_bytes,
}
use oxide_batch_workloads.Evidence.Retention.{
  positive, require_positive, is_false, validate_retention,
}

-- The file is there, and has the size that is counted.
abbrev pub is_on_disk : (String → Option RetainedFile) → Kept → Bool
is_on_disk files k = elim (files k.path) [ none ↦ false | some file ↦ nat_eq file.size k.size ]

module _ (files : String → Option RetainedFile) where
  compare_file-on_disk :
      (f : Field) (path expected : String) (size : Option ℕ) (file : Option RetainedFile)
      (out : String × ℕ)
      → compare_file f path expected size file ≡ ok out
      → (path ≡ out.0)
        × (elim file [ none ↦ false | some found ↦ nat_eq found.size (out.1) ] ≡ true)
  unfolding compare_file
  compare_file-on_disk f path expected none file out h = absurd (ground arith)
  compare_file-on_disk f path expected (some size) none out h = absurd (ground arith)
  compare_file-on_disk f path expected (some size) (some file) out h =
      let (digest, h1) = require-eq-ok (file.sha256 == expected) _ _ h in
      let (same_size, h2) = require-eq-ok (nat_eq file.size size) _ _ h1 in
      let same : (path, file.size) ≡ out = ok_inj h2 in
      (ap (λ p. p.0) same, rw (← same) (ground arith))

  validate_retained-on_disk :
      (paths : List String) (index : ℕ) (value : Json) (out : String × ℕ)
      → validate_retained files paths index value ≡ ok out
      → (contains paths (out.0) ≡ false)
        × (elim (files (out.0)) [ none ↦ false | some found ↦ nat_eq found.size (out.1) ] ≡ true)
  unfolding validate_retained
  validate_retained-on_disk paths index value out h =
      let (artifact, a, h1) =
        >>=-eq-ok
          (field (
            require_keys value ("path" ∷ "sha256" ∷ "size_bytes" ∷ [])
              (item "records" index ".artifact")))
          _ h in
      let (path, b, h2) =
        >>=-eq-ok (field (safe_path (get artifact "path") (item "records" index ".artifact.path")))
          _ h1 in
      let (generated, h3) =
        require-eq-ok
          (starts_with path "validation/"
            && not (last_part (path_parts path) == "evidence-manifest.json"))
          _ _ h2 in
      let (fresh, h4) = reject_if-eq-ok (contains paths path) _ _ h3 in
      let (expected, d, h5) =
        >>=-eq-ok
          (field (require_hex (get artifact "sha256") 64 (item "records" index ".artifact.sha256")))
          _ h4 in
      let (same, there) =
        compare_file-on_disk _ path expected (as_nat (get artifact "size_bytes")) (files path) out
          h5 in
      rw (← same) (fresh, there)

  validate_record-on_disk :
      (scenarios paths : List String) (index : ℕ) (value : Json) (k : Kept)
      → validate_record files scenarios paths index value ≡ ok k
      → (contains scenarios k.scenario ≡ false)
        × (contains paths k.path ≡ false)
        × (is_on_disk files k ≡ true)
  unfolding validate_record
  validate_record-on_disk scenarios paths index value k h =
      let (entry, a, h1) =
        >>=-eq-ok
          (field (
            require_keys value
              ("scenario" ∷ "artifact" ∷ "input" ∷ "parameters" ∷ "failure_point" ∷ [])
              (item "records" index "")))
          _ h in
      let (scenario, b, h2) =
        >>=-eq-ok (field (require_string (get entry "scenario") (item "records" index ".scenario")))
          _ h1 in
      let (fresh, h3) = reject_if-eq-ok (contains scenarios scenario) _ _ h2 in
      let (retained, d, h4) =
        >>=-eq-ok (validate_retained files paths index (get entry "artifact")) _ h3 in
      let (input, h5) = >>-eq-ok (validate_input index (get entry "input")) _ h4 in
      let (parameters, h6) = require-eq-ok (is_dict (get entry "parameters")) _ _ h5 in
      let (failure, h7) = require-eq-ok (is_failure_point (get entry "failure_point")) _ _ h6 in
      let same : record { scenario = scenario; path = retained.0; size = retained.1 } ≡ k =
        ok_inj h7 in
      let (new_path, there) =
        validate_retained-on_disk paths index (get entry "artifact") retained d in
      rw (← same) (fresh, new_path, there)

not_within :
    (xs ps : List String) (a : String)
    → all (λ x. not (contains (a ∷ ps) x)) xs ≡ true
    → contains xs a ≡ false
not_within [] ps a h = refl
not_within (x ∷ xs) ps a h = ground (arith, eq_iff x a, eq_iff a x, not_within xs ps a)

still_apart :
    (xs ps : List String) (a : String)
    → all (λ x. not (contains (a ∷ ps) x)) xs ≡ true
    → all (λ x. not (contains ps x)) xs ≡ true
still_apart [] ps a h = refl
still_apart (x ∷ xs) ps a h = ground (arith, still_apart xs ps a)

module _ (files : String → Option RetainedFile) where
  record_loop-on_disk :
      (scenarios paths : List String) (index : ℕ) (js : List Json) (kept : List Kept)
      → record_loop files scenarios paths index js ≡ ok kept
      → (all (λ p. not (contains paths p)) (kept_paths kept) ≡ true)
        × (distinct (kept_paths kept) ≡ true)
        × (all (is_on_disk files) kept ≡ true)
        × (length kept ≡ length js)
  unfolding record_loop
  record_loop-on_disk scenarios paths index [] kept h = rw (← (ok_inj h)) (refl, refl, refl, refl)
  record_loop-on_disk scenarios paths index (j ∷ js) kept h =
      let (k, a, h1) = >>=-eq-ok (validate_record files scenarios paths index j) _ h in
      let (rest, b, h2) =
        >>=-eq-ok (record_loop files (k.scenario ∷ scenarios) (k.path ∷ paths) (suc index) js) _
          h1 in
      let same : k ∷ rest ≡ kept = ok_inj h2 in
      let (new_scenario, new_path, there) =
        validate_record-on_disk files scenarios paths index j k a in
      let (apart, others, all_there, size) =
        record_loop-on_disk (k.scenario ∷ scenarios) (k.path ∷ paths) (suc index) js rest b in
      rw (← same) (
        ground (arith, still_apart (kept_paths rest) paths k.path apart),
        ground (arith, not_within (kept_paths rest) paths k.path apart),
        ground arith,
        ground arith,
      )

  -- The paths of accepted records are distinct, and every one is a file of the size counted.
  pub validate_records-on_disk :
      (value : Json) (kept : List Kept)
      → validate_records files value ≡ ok kept
      → (distinct (kept_paths kept) ≡ true) × (all (is_on_disk files) kept ≡ true)
  unfolding validate_records
  validate_records-on_disk value kept h = elim (Option-cases (as_list value)) [
    | inl missing ↦ absurd (ground (arith, rw (missing, validate_records) at h))
    | inr ([], found) ↦ absurd (ground (arith, rw (found, validate_records) at h))
    | inr (j ∷ js, found) ↦
        let (apart, others, all_there, size) =
          record_loop-on_disk [] [] 0 (j ∷ js) kept (rw (found, validate_records) at h) in
        (others, all_there)
  ]

positive-is : (o : Option ℕ) (n : ℕ) → positive o ≡ some n → (o ≡ some n) × (1 ≤ n)
positive-is none n h = absurd (ground arith)
positive-is (some m) n h = elim (Bool-cases (ltb m 1)) [
  | inl small ↦ absurd (ground (arith, rw small at h))
  | inr large ↦ let same = rw large at h in (same, ground arith)
]

require_positive-is :
    (j : Json) (e : ManifestError) (n : ℕ)
    → require_positive j e ≡ ok n
    → (as_nat j ≡ some n) × (1 ≤ n)
unfolding require_positive
require_positive-is j e n h = elim (Option-cases (positive (as_nat j))) [
  | inl small ↦ absurd (ground (arith, rw (small, require_positive) at h))
  | inr (m, found) ↦
      positive-is (as_nat j) n (found ∙ ap some (ok_inj (rw (found, require_positive) at h)))
]

pub require_keys-as_dict :
    (j : Json) (names : List String) (f : Field) (d : Dict Json)
    → field (require_keys j names f) ≡ ok d
    → as_dict j ≡ some d
unfolding require_keys
require_keys-as_dict j names f d h = elim (Option-cases (as_dict j)) [
  | inl missing ↦ absurd (ground (arith, rw (missing, require_keys) at h))
  | inr (e, found) ↦ elim (Bool-cases (same_keys e names)) [
    | inl same ↦ found ∙ ap some (ok_inj (rw (found, same, require_keys) at h))
    | inr other ↦ absurd (ground (arith, rw (found, other, require_keys) at h))
  ]
]

-- The `committed_artifacts` of a retention section.
abbrev pub limits_of : Json → Option (Dict Json)
limits_of value = elim (as_dict value) [
  | none ↦ none
  | some retention ↦ as_dict (get retention "committed_artifacts")
]

-- What the limits of the retention section are, and that they hold.
abbrev pub IsWithin : Dict Json → List Kept → Type 0
IsWithin committed kept =
    (max_count : ℕ) × (max_total : ℕ) × (as_nat (get committed "max_count") ≡ some max_count)
    × (as_nat (get committed "max_total_bytes") ≡ some max_total)
    × (length kept ≤ max_count)
    × (total_bytes kept ≤ max_total)

-- If the retention section is accepted, then the artifacts are at most as many and as large as it
-- says, and the JSON files under validation/ are exactly the artifacts.
pub validate_retention-IsWithin :
    (json_files : List String) (value : Json) (kept : List Kept)
    → is_ok (validate_retention json_files value kept) ≡ true
    → (committed : Dict Json) × (limits_of value ≡ some committed)
      × IsWithin committed kept
      × (same_set json_files (kept_paths kept) ≡ true)
unfolding validate_retention
validate_retention-IsWithin json_files value kept h =
    elim (Result-cases (validate_retention json_files value kept)) [
      | inl (e, failed) ↦ absurd (ground (arith, rw failed at h))
      | inr (done, accepted) ↦
          let (retention, a, h1) =
            >>=-eq-ok
              (field (
                require_keys value ("committed_artifacts" ∷ "wall_clock_freshness_merge_gate" ∷ [])
                  (plain "retention")))
              _ accepted in
          let (committed, b, h2) =
            >>=-eq-ok
              (field (
                require_keys (get retention "committed_artifacts")
                  ("directory" ∷ "max_count" ∷ "max_total_bytes" ∷ "supersession" ∷ [])
                  (plain "retention.committed_artifacts")))
              _ h1 in
          let (named, h3) =
            require-eq-ok (is_text (get committed "directory") "validation") _ _ h2 in
          let (max_count, d, h4) =
            >>=-eq-ok (require_positive (get committed "max_count") wrong_count) _ h3 in
          let (max_total, e, h5) =
            >>=-eq-ok (require_positive (get committed "max_total_bytes") wrong_total) _ h4 in
          let (supersession, f, h6) =
            >>=-eq-ok
              (field (
                require_string (get committed "supersession")
                  (plain "retention.committed_artifacts.supersession")))
              _ h5 in
          let (few, h7) = reject_if-eq-ok (ltb max_count (length kept)) _ _ h6 in
          let (small, h8) = reject_if-eq-ok (ltb max_total (total_bytes kept)) _ _ h7 in
          let (no_gate, h9) =
            require-eq-ok (is_false (get retention "wall_clock_freshness_merge_gate")) _ _ h8 in
          let count_is = require_positive-is (get committed "max_count") wrong_count max_count d in
          let total_is =
            require_positive-is (get committed "max_total_bytes") wrong_total max_total e in
          (
            committed,
            rw
                (
                  require_keys-as_dict value
                      ("committed_artifacts" ∷ "wall_clock_freshness_merge_gate" ∷ [])
                      (plain "retention") retention a,
                  limits_of,
                )
                (require_keys-as_dict (get retention "committed_artifacts")
                  ("directory" ∷ "max_count" ∷ "max_total_bytes" ∷ "supersession" ∷ [])
                  (plain "retention.committed_artifacts") committed b),
            (max_count, max_total, count_is.0, total_is.0, ground arith, ground arith),
            sym (is_ok-require (same_set json_files (kept_paths kept)) wrong_layout) ∙ ap is_ok h9,
          )
    ]
