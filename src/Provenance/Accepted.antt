-- ===== src/Provenance/Accepted.antt =====
-- The whole repository: the workloads are published, and the fixtures are free of OxideBatch.
use oxide_batch_workloads.Base.{
  ◌≡◌, refl, sym, ◌∙◌, String, Bool, true, false, not, ◌&&◌, none, some, List, [], ◌∷◌, all, any,
  arith, and_intro, and_left, and_right, Option-cases, inl, inr,
}
use oxide_batch_workloads.Base.Dict.{Dict, insert}
use oxide_batch_workloads.Base.Json.{Json}
use oxide_batch_workloads.Base.Result.{
  ok, err, reject_if, is_ok, >>=-eq-ok, >>-eq-ok, Result-cases, is_ok->>, is_ok-reject_if,
}
use oxide_batch_workloads.Registry.{Manifest, absent, invalid, document, path_parts}
use oxide_batch_workloads.Provenance.{
  fixture_package, is_first_party, dependency_package, iter_dependency_tables, validate_manifest,
}
use oxide_batch_workloads.Provenance.Lock.{
  check_fixture_table, check_fixture_tables, validate_fixture_manifest, is_first_party_package,
  check_fixture_packages, fixture_packages, validate_fixture_lockfile, validate_lockfile,
}
use oxide_batch_workloads.Provenance.Repository.{
  Checkout, last_part, validate_cargo_source_config, load_workloads, validate_workload,
  workload_loop, load_fixtures, validate_fixture, fixture_loop, validate_repository,
}
use oxide_batch_workloads.Provenance.Published.{is_published, validate_lockfile-is_published}

-- A specification that reads as a package of another project.
abbrev pub is_foreign : String × Json → Bool
is_foreign (alias, spec) = elim (dependency_package alias spec) [
  | err e ↦ false
  | ok dep ↦ not (is_first_party dep.package_name)
]

check_fixture_table-is_foreign :
    (table : Dict Json) → is_ok (check_fixture_table table) ≡ true → all is_foreign table ≡ true
unfolding check_fixture_table
check_fixture_table-is_foreign [] h = refl
check_fixture_table-is_foreign ((alias, spec) ∷ table) h =
    elim (Result-cases (dependency_package alias spec)) [
      | inl (e, failed) ↦ absurd (ground (arith, rw (failed, check_fixture_table) at h))
      | inr (dep, found) ↦
          let both =
            sym
              (is_ok->> (reject_if (is_first_party dep.package_name) _) (check_fixture_table table))
            ∙ (rw (found, check_fixture_table) at h) in
          and_intro _ _
            (rw (found, is_foreign)
              (sym (is_ok-reject_if (is_first_party dep.package_name) _) ∙ and_left _ _ both))
            (check_fixture_table-is_foreign table
              (and_right (is_ok (reject_if (is_first_party dep.package_name) _)) _ both))
    ]

check_fixture_tables-is_foreign :
    (tables : List (Dict Json))
    → is_ok (check_fixture_tables tables) ≡ true
    → all (λ table. all is_foreign table) tables ≡ true
unfolding check_fixture_tables
check_fixture_tables-is_foreign [] h = refl
check_fixture_tables-is_foreign (table ∷ tables) h =
    let both = sym (is_ok->> (check_fixture_table table) (check_fixture_tables tables)) ∙ h in
    and_intro _ _ (check_fixture_table-is_foreign table (and_left _ _ both)) (
      check_fixture_tables-is_foreign tables (and_right (is_ok (check_fixture_table table)) _ both))

check_fixture_packages-none :
    (js : List Json)
    → is_ok (check_fixture_packages js) ≡ true
    → any is_first_party_package js ≡ false
unfolding check_fixture_packages
check_fixture_packages-none [] h = refl
check_fixture_packages-none (j ∷ js) h =
    let both =
      sym (
        is_ok->> (reject_if (is_first_party_package j) fixture_package) (check_fixture_packages js))
      ∙ h in
    ground (
      arith,
      is_ok-reject_if (is_first_party_package j) fixture_package,
      check_fixture_packages-none js
          (and_right (is_ok (reject_if (is_first_party_package j) fixture_package)) _ both),
      both,
    )

-- A manifest without first-party dependencies, and a lock file without first-party packages.
abbrev pub is_free : Manifest → Manifest → Bool
is_free (document d) (document l) =
    all (λ table. all is_foreign table) (iter_dependency_tables d) && (elim (fixture_packages l) [
      | none ↦ false
      | some packages ↦ not (any is_first_party_package packages)
    ])
is_free manifest lockfile = false

validate_fixture_lockfile-none :
    (l : Dict Json)
    → is_ok (validate_fixture_lockfile (document l)) ≡ true
    → (packages : List Json) × (fixture_packages l ≡ some packages)
      × (any is_first_party_package packages ≡ false)
unfolding validate_fixture_lockfile
validate_fixture_lockfile-none l h = elim (Option-cases (fixture_packages l)) [
  | inl missing ↦ absurd (ground (arith, rw (missing, validate_fixture_lockfile) at h))
  | inr (packages, found) ↦ (
    packages,
    found,
    check_fixture_packages-none packages (rw (found, validate_fixture_lockfile) at h),
  )
]

fixture-is_free :
    (manifest lockfile : Manifest)
    → is_ok (validate_fixture_manifest manifest) ≡ true
    → is_ok (validate_fixture_lockfile lockfile) ≡ true
    → is_free manifest lockfile ≡ true
unfolding validate_fixture_manifest validate_fixture_lockfile
fixture-is_free absent l h k = absurd (ground arith)
fixture-is_free invalid l h k = absurd (ground arith)
fixture-is_free (document d) absent h k = absurd (ground arith)
fixture-is_free (document d) invalid h k = absurd (ground arith)
fixture-is_free (document d) (document l) h k =
    let (packages, found, none_ours) = validate_fixture_lockfile-none l k in
    and_intro _ _ (check_fixture_tables-is_foreign (iter_dependency_tables d) h)
      (rw found (rw none_ours refl))

workload_loop-is_published :
    (c : Checkout) (dirs : List String) (result final : Dict (Dict String))
    → workload_loop c result dirs ≡ ok final
    → all (λ dir. is_published (c.manifest dir) (c.lockfile dir)) dirs ≡ true
unfolding workload_loop validate_workload
workload_loop-is_published c [] result final h = refl
workload_loop-is_published c (dir ∷ dirs) result final h =
    let (subjects, one, h1) = >>=-eq-ok (validate_workload c dir) _ h in
    let (config, k1) = >>-eq-ok (validate_cargo_source_config c dir) _ one in
    let (found, valid, k2) = >>=-eq-ok (validate_manifest (c.manifest dir)) _ k1 in
    let (locked, k3) = >>-eq-ok (validate_lockfile (c.lockfile dir) found) _ k2 in
    and_intro _ _
      (validate_lockfile-is_published (c.manifest dir) (c.lockfile dir) found valid locked)
      (workload_loop-is_published c dirs (insert (last_part (path_parts dir)) subjects result) final
        h1)

fixture_loop-is_free :
    (c : Checkout) (dirs : List String)
    → is_ok (fixture_loop c dirs) ≡ true
    → all (λ dir. is_free (c.manifest dir) (c.lockfile dir)) dirs ≡ true
unfolding fixture_loop validate_fixture
fixture_loop-is_free c [] h = refl
fixture_loop-is_free c (dir ∷ dirs) h =
    let both = sym (is_ok->> (validate_fixture c dir) (fixture_loop c dirs)) ∙ h in
    let files =
      sym (
        is_ok->> (validate_fixture_manifest (c.manifest dir))
          (validate_fixture_lockfile (c.lockfile dir)))
      ∙ and_left _ _ both in
    and_intro _ _
      (fixture-is_free (c.manifest dir) (c.lockfile dir) (and_left _ _ files)
        (and_right (is_ok (validate_fixture_manifest (c.manifest dir))) _ files))
      (fixture_loop-is_free c dirs (and_right (is_ok (validate_fixture c dir)) _ both))

-- If the repository is accepted, then in every table of every workload's manifest each first-party
-- dependency has an exact version and no forbidden field, and the workload's lock file has exactly
-- one package of that name and version, from crates.io and with a checksum; and no fixture has a
-- first-party dependency in its manifest or a first-party package in its lock file.
pub validate_repository-is_published :
    (c : Checkout) (result : Dict (Dict String))
    → validate_repository c ≡ ok result
    → (workloads : List String) × (fixtures : List String) × (load_workloads c.registry
        ≡ ok workloads)
      × (load_fixtures c.registry ≡ ok fixtures)
      × (all (λ dir. is_published (c.manifest dir) (c.lockfile dir)) workloads ≡ true)
      × (all (λ dir. is_free (c.manifest dir) (c.lockfile dir)) fixtures ≡ true)
unfolding validate_repository
validate_repository-is_published c result h =
    let (config, h1) = >>-eq-ok (validate_cargo_source_config c "") _ h in
    let (workloads, ws, h2) = >>=-eq-ok (load_workloads c.registry) _ h1 in
    let (final, looped, h3) = >>=-eq-ok (workload_loop c [] workloads) _ h2 in
    let (fixtures, fs, h4) = >>=-eq-ok (load_fixtures c.registry) _ h3 in
    let (free, h5) = >>-eq-ok (fixture_loop c fixtures) _ h4 in
    (
      workloads,
      fixtures,
      ws,
      fs,
      workload_loop-is_published c workloads [] final looped,
      fixture_loop-is_free c fixtures free,
    )
