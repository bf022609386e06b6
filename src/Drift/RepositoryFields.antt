-- ===== src/Drift/RepositoryFields.antt =====
-- The fields of the repository, read straight from what GitHub answers.
use oxide_batch_workloads.Base.{
  ◌≡◌, refl, sym, ◌∙◌, ap, inl, inr, String, ◌<>◌, true, ◌==◌, some, [], ◌∷◌, all, is_some, arith,
  Bool-cases, Option-cases, eq_iff,
}
use oxide_batch_workloads.Base.Dict.{Dict, lookup}
use oxide_batch_workloads.Base.Json.{Json, get, as_dict}
use oxide_batch_workloads.Base.Result.{ok, >>=-eq-ok, ok_inj}
use oxide_batch_workloads.Drift.{
  Live, repository_fields, repository_field, check_sbom, check_reporting, actual_repository_value,
}

-- The value of the repository's field after which the control is called, of the dependency graph, or
-- of private vulnerability reporting.
pub data IsField (live : Live) (repository : Json) (id : String) (actual : Json) : Type 0 where
  a_field :
      (key : String) (fields : Dict Json)
      → id ≡ "repository." <> key
      → as_dict repository ≡ some fields
      → lookup key fields ≡ some actual
      → IsField live repository id actual
  dependency_graph :
      (answer : Json) (d : Dict Json)
      → id ≡ "security.dependency_graph"
      → live.sbom ≡ ok answer
      → as_dict answer ≡ some d
      → is_some (as_dict (get d "sbom")) ≡ true
      → actual ≡ Json.bool true
      → IsField live repository id actual
  vulnerability_reporting :
      (answer : Json) (d : Dict Json)
      → id ≡ "security.private_vulnerability_reporting"
      → live.reporting ≡ ok answer
      → as_dict answer ≡ some d
      → lookup "enabled" d ≡ some actual
      → IsField live repository id actual

lookup-named :
    (d : Dict String) (id key : String)
    → all (λ p. p.0 == "repository." <> p.1) d ≡ true
    → lookup id d ≡ some key
    → id ≡ "repository." <> key
unfolding lookup
lookup-named [] id key a h = absurd (ground arith)
lookup-named ((k, v) ∷ d) id key a h =
    ground (arith, lookup-named d id key, eq_iff k id, eq_iff k ("repository." <> v))

module _ (live : Live) (repository : Json) (id : String) (actual : Json) where
  repository_field-IsField :
      (key : String)
      → id ≡ "repository." <> key
      → repository_field id repository key ≡ ok actual
      → IsField live repository id actual
  unfolding repository_field
  repository_field-IsField key named h = elim (Option-cases (as_dict repository)) [
    | inl missing ↦ absurd (ground (arith, rw (missing, repository_field) at h))
    | inr (fields, found) ↦ elim (Option-cases (lookup key fields)) [
      | inl missing ↦ absurd (ground (arith, rw (found, missing, repository_field) at h))
      | inr (j, there) ↦
          a_field key fields named found
            (there ∙ ap some (ok_inj (rw (found, there, repository_field) at h)))
    ]
  ]

  check_sbom-IsField :
      (answer : Json)
      → id ≡ "security.dependency_graph"
      → live.sbom ≡ ok answer
      → check_sbom answer ≡ ok actual
      → IsField live repository id actual
  unfolding check_sbom
  check_sbom-IsField answer named given h = elim (Option-cases (as_dict answer)) [
    | inl missing ↦ absurd (ground (arith, rw (missing, check_sbom) at h))
    | inr (d, found) ↦ elim (Bool-cases (is_some (as_dict (get d "sbom")))) [
      | inl there ↦
          dependency_graph answer d named given found there
            (sym (ok_inj (rw (found, there, check_sbom) at h)))
      | inr gone ↦ absurd (ground (arith, rw (found, gone, check_sbom) at h))
    ]
  ]

  check_reporting-IsField :
      (answer : Json)
      → id ≡ "security.private_vulnerability_reporting"
      → live.reporting ≡ ok answer
      → check_reporting answer ≡ ok actual
      → IsField live repository id actual
  unfolding check_reporting
  check_reporting-IsField answer named given h = elim (Option-cases (as_dict answer)) [
    | inl missing ↦ absurd (ground (arith, rw (missing, check_reporting) at h))
    | inr (d, found) ↦ elim (Option-cases (lookup "enabled" d)) [
      | inl missing ↦ absurd (ground (arith, rw (found, missing, check_reporting) at h))
      | inr (j, there) ↦
          vulnerability_reporting answer d named given found
            (there ∙ ap some (ok_inj (rw (found, there, check_reporting) at h)))
    ]
  ]

  pub actual_repository_value-IsField :
      actual_repository_value live id repository ≡ ok actual → IsField live repository id actual
  unfolding actual_repository_value
  actual_repository_value-IsField h = elim (Option-cases (lookup id repository_fields)) [
    | inr (key, found) ↦
        repository_field-IsField key (lookup-named repository_fields id key refl found)
          (rw (found, actual_repository_value) at h)
    | inl missing ↦
        let h1 = rw (missing, actual_repository_value) at h in
        elim (Bool-cases (id == "security.dependency_graph")) [
          | inl graph ↦
              let (answer, a, k) = >>=-eq-ok live.sbom check_sbom (rw graph at h1) in
              check_sbom-IsField answer ((eq_iff id "security.dependency_graph").0 graph) a k
          | inr other ↦ elim (Bool-cases (id == "security.private_vulnerability_reporting")) [
            | inl reporting ↦
                let (answer, a, k) =
                  >>=-eq-ok live.reporting check_reporting (rw reporting at (rw other at h1)) in
                check_reporting-IsField answer
                  ((eq_iff id "security.private_vulnerability_reporting").0 reporting) a k
            | inr neither ↦ absurd (ground (arith, rw neither at (rw other at h1)))
          ]
        ]
  ]
