-- ===== src/Provenance/Published.antt =====
-- What an accepted repository guarantees of its workloads and its fixtures.
use oxide_batch_workloads.Base.{
  ◌≡◌, refl, sym, ◌∙◌, String, Bool, true, false, ◌&&◌, ◌==◌, none, some, List, [], ◌∷◌, is_empty,
  all, arith, and_intro, and_left, and_right, Option-cases, Bool-cases, inl, inr, eq_iff,
  List-cases, ap,
}
use oxide_batch_workloads.Base.Dict.{Dict, lookup}
use oxide_batch_workloads.Base.Json.{Json, get, as_list, hashable}
use oxide_batch_workloads.Base.Result.{
  ok, ◌>>◌, require, is_ok, >>=-eq-ok, >>-eq-ok, reject_if-eq-ok, ok_inj, is_ok->>, is_ok-require,
}
use oxide_batch_workloads.Registry.{Manifest, absent, invalid, document}
use oxide_batch_workloads.Provenance.{
  type_error, bad_source, bad_checksum, iter_dependency_tables, check_overrides, tables_loop,
  manifest_subjects, validate_manifest,
}
use oxide_batch_workloads.Provenance.Lock.{
  packages_of, is_canonical, is_checksum, check_package, check_locked, insert_subject,
  sort_subjects, check_subjects, lock_document, validate_lockfile,
}
use oxide_batch_workloads.Provenance.Subjects.{
  good_tables, has_subject, good_tables-weaker, tables_loop-good,
}

-- The lock file has exactly one package of the name and version, from crates.io, with a checksum.
abbrev pub is_locked : List Json → String → String → Bool
is_locked packages name version = elim (packages_of packages name version) [
  | [] ↦ false
  | d ∷ [] ↦ is_canonical (get d "source") && is_checksum (get d "checksum")
  | d ∷ e ∷ ds ↦ false
]

check_package-is_ok :
    (name : String) (d : Dict Json)
    → is_ok (check_package name d) ≡ true
    → (is_canonical (get d "source") && is_checksum (get d "checksum")) ≡ true
unfolding check_package
check_package-is_ok name d h =
    let second = require (is_canonical (get d "source")) (bad_source name) in
    let third = require (is_checksum (get d "checksum")) (bad_checksum name) in
    let all_three =
      sym (is_ok->> (require (hashable (get d "source")) type_error) (second >> third)) ∙ h in
    let last_two =
      sym (is_ok->> second third)
      ∙ and_right (is_ok (require (hashable (get d "source")) type_error)) _ all_three in
    and_intro _ _
      (sym (is_ok-require (is_canonical (get d "source")) (bad_source name))
        ∙ and_left _ _ last_two)
      (sym (is_ok-require (is_checksum (get d "checksum")) (bad_checksum name))
        ∙ and_right (is_ok second) _ last_two)

check_locked-is_locked :
    (packages : List Json) (s : String × String)
    → is_ok (check_locked packages s) ≡ true
    → is_locked packages s.0 s.1 ≡ true
unfolding check_locked
check_locked-is_locked packages (name, version) h =
    elim (List-cases (packages_of packages name version)) [
      | inl nothing ↦ absurd (ground (arith, rw (nothing, check_locked) at h))
      | inr (d, [], found) ↦
          rw (found, is_locked) (check_package-is_ok name d (rw (found, check_locked) at h))
      | inr (d, e ∷ ds, found) ↦ absurd (ground (arith, rw (found, check_locked) at h))
    ]

check_subjects-is_locked :
    (packages : List Json) (ss : Dict String)
    → is_ok (check_subjects packages ss) ≡ true
    → all (λ s. is_locked packages s.0 s.1) ss ≡ true
unfolding check_subjects
check_subjects-is_locked packages [] h = refl
check_subjects-is_locked packages (s ∷ ss) h =
    let both = sym (is_ok->> (check_locked packages s) (check_subjects packages ss)) ∙ h in
    and_intro _ _ (check_locked-is_locked packages s (and_left _ _ both))
      (check_subjects-is_locked packages ss (and_right (is_ok (check_locked packages s)) _ both))

module _ (p : String × String → Bool) where
  all-insert_subject :
      (s : String × String) (ss : Dict String) → all p (insert_subject s ss) ≡ (p s && all p ss)
  unfolding insert_subject
  all-insert_subject s [] = refl
  all-insert_subject s (t ∷ ts) = ground (arith, all-insert_subject s ts)

  all-sort_subjects : (ss : Dict String) → all p (sort_subjects ss) ≡ all p ss
  unfolding sort_subjects
  all-sort_subjects [] = refl
  all-sort_subjects (s ∷ ss) =
      all-insert_subject s (sort_subjects ss) ∙ ap (λ b. p s && b) (all-sort_subjects ss)

-- A subject among those that all satisfy a test satisfies it.
all-has_subject :
    (good : String → String → Bool) (ss : Dict String) (name version : String)
    → all (λ s. good s.0 s.1) ss ≡ true
    → has_subject ss name version ≡ true
    → good name version ≡ true
unfolding lookup
all-has_subject good [] name version h has = absurd (ground arith)
all-has_subject good ((n, v) ∷ ss) name version h has = elim (Bool-cases (n == name)) [
  | inl same ↦
      let here : (v == version) ≡ true = rw (same, has_subject) at has in
      rw (← ((eq_iff n name).0 same), ← ((eq_iff v version).0 here)) (and_left _ _ h)
  | inr other ↦
      all-has_subject good ss name version (and_right (good n v) _ h)
        (rw (other, has_subject) at has)
]

-- Every first-party dependency of the manifest is exact and locked.
abbrev pub is_published : Manifest → Manifest → Bool
is_published (document d) (document l) = elim (as_list (get l "package")) [
  | none ↦ false
  | some packages ↦ good_tables (is_locked packages) (iter_dependency_tables d)
]
is_published manifest lockfile = false

lock_document-is_locked :
    (l : Dict Json) (subjects : Dict String)
    → is_ok (lock_document l subjects) ≡ true
    → (packages : List Json) × (as_list (get l "package") ≡ some packages)
      × (all (λ s. is_locked packages s.0 s.1) subjects ≡ true)
unfolding lock_document
lock_document-is_locked l subjects h = elim (Option-cases (as_list (get l "package"))) [
  | inl missing ↦ absurd (ground (arith, rw (missing, lock_document) at h))
  | inr (packages, found) ↦ (
    packages,
    found,
    sym (all-sort_subjects (λ s. is_locked packages s.0 s.1) subjects)
        ∙ check_subjects-is_locked packages (sort_subjects subjects)
            (rw (found, lock_document) at h),
  )
]

manifest_subjects-good :
    (d : Dict Json) (subjects : Dict String)
    → manifest_subjects d ≡ ok subjects
    → good_tables (has_subject subjects) (iter_dependency_tables d) ≡ true
unfolding manifest_subjects
manifest_subjects-good d subjects h =
    let (free, h1) = >>-eq-ok (check_overrides d) _ h in
    let (found, looped, h2) = >>=-eq-ok (tables_loop [] (iter_dependency_tables d)) _ h1 in
    let (some_one, h3) = reject_if-eq-ok (is_empty found) _ _ h2 in
    let same : found ≡ subjects = ok_inj h3 in
    rw (← same) ((tables_loop-good [] found (iter_dependency_tables d) looped).0)

pub validate_lockfile-is_published :
    (manifest lockfile : Manifest) (subjects : Dict String)
    → validate_manifest manifest ≡ ok subjects
    → is_ok (validate_lockfile lockfile subjects) ≡ true
    → is_published manifest lockfile ≡ true
unfolding validate_manifest validate_lockfile
validate_lockfile-is_published absent l subjects h k = absurd (ground arith)
validate_lockfile-is_published invalid l subjects h k = absurd (ground arith)
validate_lockfile-is_published (document d) absent subjects h k = absurd (ground arith)
validate_lockfile-is_published (document d) invalid subjects h k = absurd (ground arith)
validate_lockfile-is_published (document d) (document l) subjects h k =
    let (packages, found, locked) = lock_document-is_locked l subjects k in
    rw (found, is_published)
      (good_tables-weaker (has_subject subjects) (is_locked packages)
        (λ p v has. all-has_subject (is_locked packages) subjects p v locked has)
        (iter_dependency_tables d) (manifest_subjects-good d subjects h))
