-- ===== src/Provenance/Subjects.antt =====
-- The subjects that the loops of `validate_manifest` collect.
use oxide_batch_workloads.Base.{
  ◌≡◌, refl, ◌∙◌, String, Bool, true, false, not, ◌&&◌, ◌||◌, ◌==◌, Option, none, some, List, [],
  ◌∷◌, is_empty, all, arith, and_intro, and_left, and_right, Option-cases, Bool-cases, inl, inr,
  eq_iff, eq_refl, if◌then◌else◌,
}
use oxide_batch_workloads.Base.Dict.{Dict, lookup, insert, lookup-insert}
use oxide_batch_workloads.Base.Json.{Json}
use oxide_batch_workloads.Base.Result.{ok, err, >>=-eq-ok, reject_if-eq-ok, ok_inj, Result-cases}
use oxide_batch_workloads.Provenance.Version.{is_exact_version}
use oxide_batch_workloads.Provenance.{
  is_first_party, Dependency, dependency_package, forbidden, resolve, add_subject, add_dependency,
  table_loop, tables_loop,
}
use oxide_batch_workloads.Base.Text.{drop_first}

-- A first-party dependency with no forbidden field and an exact version that satisfies `good`.
abbrev pub good_version : (String → String → Bool) → String → Option String → Bool
good_version good name none = false
good_version good name (some v) = is_exact_version v && good name (drop_first v)

abbrev pub good_dependency : (String → String → Bool) → Dependency → Bool
good_dependency good dep =
    not (is_first_party dep.package_name)
    || (is_empty (forbidden dep.detailed) && good_version good dep.package_name dep.version)

abbrev pub good_spec : (String → String → Bool) → String × Json → Bool
good_spec good (alias, spec) = elim (dependency_package alias spec) [
  | err e ↦ false
  | ok dep ↦ good_dependency good dep
]

abbrev pub good_tables : (String → String → Bool) → List (Dict Json) → Bool
good_tables good tables = all (λ table. all (good_spec good) table) tables

module _ (good good' : String → String → Bool)
    (weaker : (p v : String) → good p v ≡ true → good' p v ≡ true) where
  good_version-weaker :
      (p : String) (v : Option String)
      → good_version good p v ≡ true
      → good_version good' p v ≡ true
  good_version-weaker p none h = h
  good_version-weaker p (some v) h =
      and_intro _ _ (and_left _ _ h) (weaker p (drop_first v) (and_right (is_exact_version v) _ h))

  good_dependency-weaker :
      (dep : Dependency) → good_dependency good dep ≡ true → good_dependency good' dep ≡ true
  good_dependency-weaker dep h = elim (Bool-cases (is_first_party dep.package_name)) [
    | inl ours ↦
        let both = rw ours at h in
        rw ours (
          and_intro _ _ (and_left _ _ both) (
            good_version-weaker dep.package_name dep.version
              (and_right (is_empty (forbidden dep.detailed)) _ both)))
    | inr other ↦ rw other refl
  ]

  good_spec-weaker : (x : String × Json) → good_spec good x ≡ true → good_spec good' x ≡ true
  good_spec-weaker (alias, spec) h = elim (Result-cases (dependency_package alias spec)) [
    | inl (e, failed) ↦ absurd (ground (arith, rw (failed, good_spec) at h))
    | inr (dep, found) ↦
        rw (found, good_spec) (good_dependency-weaker dep (rw (found, good_spec) at h))
  ]

  good_table-weaker :
      (table : Dict Json) → all (good_spec good) table ≡ true → all (good_spec good') table ≡ true
  good_table-weaker [] h = refl
  good_table-weaker (x ∷ table) h =
      and_intro _ _ (good_spec-weaker x (and_left _ _ h))
        (good_table-weaker table (and_right (good_spec good x) _ h))

  pub good_tables-weaker :
      (tables : List (Dict Json)) → good_tables good tables ≡ true → good_tables good' tables ≡ true
  good_tables-weaker [] h = refl
  good_tables-weaker (table ∷ tables) h =
      and_intro _ _ (good_table-weaker table (and_left _ _ h))
        (good_tables-weaker tables (and_right (all (good_spec good) table) _ h))

-- The package is a subject with the version.
abbrev pub has_subject : Dict String → String → String → Bool
has_subject subjects name version = elim (lookup name subjects) [
  | none ↦ false
  | some v ↦ v == version
]

-- No subject changes.
abbrev pub Grows : Dict String → Dict String → Type 0
Grows s t =
    (name version : String) → has_subject s name version ≡ true → has_subject t name version ≡ true

has_subject-eq : (s : Dict String) (p v : String) → has_subject s p v ≡ true → lookup p s ≡ some v
has_subject-eq s p v h = elim (Option-cases (lookup p s)) [
  | inl missing ↦ absurd (ground arith)
  | inr (w, found) ↦ ground (arith, eq_iff w v)
]

has_subject-insert :
    (s : Dict String) (p v q w : String)
    → has_subject (insert p v s) q w ≡ (if p == q then v == w else has_subject s q w)
has_subject-insert s p v q w = rw (lookup-insert p q v s, has_subject) (ground arith)

add_subject-Grows :
    (s t : Dict String) (p v : String)
    → add_subject s p v ≡ ok t
    → (has_subject t p v ≡ true) × Grows s t
unfolding add_subject
add_subject-Grows s t p v h = elim (Option-cases (lookup p s)) [
  | inl missing ↦
      let inserted : insert p v s ≡ t = ground arith in
      rw (← inserted) (
        has_subject-insert s p v p v ∙ ground (arith, eq_refl p, eq_refl v),
        λ q w has.
            has_subject-insert s p v q w ∙ ground (arith, has_subject-eq s q w has, eq_iff p q),
      )
  | inr (old, found) ↦
      let inserted : insert p v s ≡ t = ground arith in
      let same : (old == v) ≡ true = ground arith in
      rw (← inserted) (
        has_subject-insert s p v p v ∙ ground (arith, eq_refl p, eq_refl v),
        λ q w has.
            has_subject-insert s p v q w
            ∙ ground (arith, has_subject-eq s q w has, eq_iff p q, eq_iff old v, eq_refl w),
      )
]

resolve-good :
    (alias : String) (dep : Dependency) (version : String) (good : String → String → Bool)
    → resolve alias dep ≡ ok version
    → good dep.package_name version ≡ true
    → (is_empty (forbidden dep.detailed) && good_version good dep.package_name dep.version) ≡ true
unfolding resolve
resolve-good alias dep version good h g =
    let (none_forbidden, h1) = reject_if-eq-ok (not (is_empty (forbidden dep.detailed))) _ _ h in
    elim (Option-cases dep.version) [
      | inl missing ↦ absurd (ground arith)
      | inr (v, found) ↦ rw found (ground arith)
    ]

add_dependency-Grows :
    (s t : Dict String) (alias : String) (spec : Json)
    → add_dependency s alias spec ≡ ok t
    → (good_spec (has_subject t) (alias, spec) ≡ true) × Grows s t
unfolding add_dependency
add_dependency-Grows s t alias spec h =
    let (dep, found, h1) = >>=-eq-ok (dependency_package alias spec) _ h in
    elim (Bool-cases (is_first_party dep.package_name)) [
      | inl ours ↦
          let (version, resolved, h2) =
            >>=-eq-ok (resolve alias dep) (add_subject s dep.package_name) (rw ours at h1) in
          let (has, grows) = add_subject-Grows s t dep.package_name version h2 in
          (
            rw (found, good_spec)
                (rw ours (resolve-good alias dep version (has_subject t) resolved has)),
            grows,
          )
      | inr other ↦
          let same : s ≡ t = ok_inj (rw other at h1) in
          (rw (found, good_spec) (rw other refl), λ p v has. rw (← same) has)
    ]

table_loop-Grows :
    (s t : Dict String) (table : Dict Json)
    → table_loop s table ≡ ok t
    → (all (good_spec (has_subject t)) table ≡ true) × Grows s t
unfolding table_loop
table_loop-Grows s t [] h = let same : s ≡ t = ok_inj h in (refl, λ p v has. rw (← same) has)
table_loop-Grows s t ((alias, spec) ∷ table) h =
    let (u, first, h1) =
      >>=-eq-ok (add_dependency s alias spec) (λ more. table_loop more table) h in
    let (good, grows) = add_dependency-Grows s u alias spec first in
    let (rest, grows') = table_loop-Grows u t table h1 in
    (
      and_intro _ _ (good_spec-weaker (has_subject u) (has_subject t) grows' (alias, spec) good)
          rest,
      λ p v has. grows' p v (grows p v has),
    )

pub tables_loop-good :
    (s t : Dict String) (tables : List (Dict Json))
    → tables_loop s tables ≡ ok t
    → (good_tables (has_subject t) tables ≡ true) × Grows s t
unfolding tables_loop
tables_loop-good s t [] h = let same : s ≡ t = ok_inj h in (refl, λ p v has. rw (← same) has)
tables_loop-good s t (table ∷ tables) h =
    let (u, first, h1) = >>=-eq-ok (table_loop s table) (λ more. tables_loop more tables) h in
    let (good, grows) = table_loop-Grows s u table first in
    let (rest, grows') = tables_loop-good u t tables h1 in
    (
      and_intro _ _ (good_table-weaker (has_subject u) (has_subject t) grows' table good) rest,
      λ p v has. grows' p v (grows p v has),
    )
