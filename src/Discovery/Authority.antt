-- ===== src/Discovery/Authority.antt =====
-- .github/scripts/run-supply-chain-authority.py: the scans run over exactly the canonical
-- workloads. A scan, which runs cargo-deny, is a parameter: its exit code, or its exception.
use oxide_batch_workloads.Base.{
  ℕ, ◌≡◌, refl, ◌↔◌, String, Bool, true, false, ◌&&◌, ◌==◌, Option, none, some, List, [], ◌∷◌,
  is_empty, distinct, all, arith, nat_eq, if◌then◌else◌, Option-cases, inl, inr, eq_iff, eq_refl,
}
use oxide_batch_workloads.Base.Json.{Json, get, as_dict, as_str}
use oxide_batch_workloads.Base.Result.{
  Result, ok, err, ◌>>=◌, traverse, >>=-eq-ok, ok_inj, Result-cases,
}
use oxide_batch_workloads.Aggregate.Load.{include_of}
use oxide_batch_workloads.Registry.{Root, RegistryFile}
use oxide_batch_workloads.Registry.Repository.{Registry, validate_repository}
use oxide_batch_workloads.Registry.Sound.{names_of}

pub data AuthorityError : Type 0 where
  not_json empty_include malformed_entry duplicate_names registry_failed no_workloads :
      AuthorityError
  mismatch : List String → List String → AuthorityError

-- One round of the loop of `parse_discovery_json`.
unfoldable pub discovered_name : Json → Result AuthorityError String
unfolding get
discovered_name j = elim (as_dict j) [
  | none ↦ err malformed_entry
  | some d ↦ elim (as_str (get d "name")) [
    | none ↦ err malformed_entry
    | some s ↦ if s == "" then err malformed_entry else ok s
  ]
]

abbrev pub check_distinct : List String → Result AuthorityError (List String)
check_distinct names = if distinct names then ok names else err duplicate_names

abbrev pub parse_include : List Json → Result AuthorityError (List String)
parse_include [] = err empty_include
parse_include (j ∷ js) = traverse discovered_name (j ∷ js) >>= check_distinct

unfoldable pub parse_discovery_json : Option Json → Result AuthorityError (List String)
unfolding discovered_name include_of
parse_discovery_json none = err not_json
parse_discovery_json (some matrix) = elim (include_of matrix) [
  | none ↦ err empty_include
  | some include ↦ parse_include include
]

abbrev pub nonempty_names : List String → Result AuthorityError (List String)
nonempty_names [] = err no_workloads
nonempty_names (n ∷ ns) = ok (n ∷ ns)

unfoldable pub canonical_real_workloads : Root → RegistryFile → Result AuthorityError (List String)
unfolding validate_repository
canonical_real_workloads root file = elim (validate_repository root file) [
  | err e ↦ err registry_failed
  | ok r ↦ nonempty_names (names_of r.workloads)
]

-- `==` on lists of texts.
abbrev pub same_names : List String → List String → Bool
same_names [] [] = true
same_names (x ∷ xs) (y ∷ ys) = x == y && same_names xs ys
same_names xs ys = false

unfoldable pub verify_discovery_names :
    List String → List String → Result AuthorityError (List String)
verify_discovery_names discovered canonical =
    if same_names discovered canonical then ok canonical else err (mismatch discovered canonical)

unfoldable pub verify_discovery_contract :
    Root → RegistryFile → Option Json → Result AuthorityError (List String)
unfolding parse_discovery_json canonical_real_workloads verify_discovery_names
verify_discovery_contract root file payload = do
  discovered ← parse_discovery_json payload
  canonical ← canonical_real_workloads root file
  verify_discovery_names discovered canonical

-- A message of `run_all`: a `SupplyChainError`, or an exit code.
pub data Failure : Type 0 where
  raised : String → String → Failure
  exited : String → ℕ → Failure

-- What a scan does: its exit code, or the message of a `SupplyChainError`.
module _ (scan : String → Result String ℕ) where
  abbrev pub scan_passes : String → Bool
  scan_passes name = elim (scan name) [ err message ↦ false | ok code ↦ nat_eq code 0 ]

  -- One round of the loop of `run_all`.
  abbrev pub add_failure : String → Result String ℕ → List Failure → List Failure
  add_failure name (err message) rest = raised name message ∷ rest
  add_failure name (ok code) rest = if nat_eq code 0 then rest else exited name code ∷ rest

  unfoldable pub run_all : List String → List Failure
  run_all [] = []
  run_all (name ∷ names) = add_failure name (scan name) (run_all names)

  abbrev finish : Result AuthorityError (List String) → ℕ
  finish (err e) = 1
  finish (ok names) = if is_empty (run_all names) then 0 else 1

  -- The exit status of `main`.
  unfoldable pub main : Root → RegistryFile → Option Json → ℕ
  unfolding verify_discovery_contract run_all
  main root file payload = finish (verify_discovery_contract root file payload)

  run_all-is_empty : (names : List String) → is_empty (run_all names) ≡ all scan_passes names
  unfolding run_all
  run_all-is_empty [] = refl
  run_all-is_empty (n ∷ names) = ground (arith, run_all-is_empty names)

same_names_eq : (xs ys : List String) → same_names xs ys ≡ true → xs ≡ ys
same_names_eq [] [] h = refl
same_names_eq (x ∷ xs) (y ∷ ys) h = ground (arith, eq_iff x y, same_names_eq xs ys)
same_names_eq [] (y ∷ ys) h = absurd (ground arith)
same_names_eq (x ∷ xs) [] h = absurd (ground arith)

same_names_refl : (xs : List String) → same_names xs xs ≡ true
same_names_refl [] = refl
same_names_refl (x ∷ xs) = ground (arith, eq_refl x, same_names_refl xs)

-- The registry is accepted, the discovered names are exactly its workloads, and all scans pass.
pub record IsAuthorised (scan : String → Result String ℕ) (root : Root) (file : RegistryFile)
    (payload : Option Json) : Type 0 where
  pub registry : Registry
  pub accepted : validate_repository root file ≡ ok registry
  pub discovered : parse_discovery_json payload ≡ ok (names_of registry.workloads)
  pub passed : all (scan_passes scan) (names_of registry.workloads) ≡ true

parse_include-ne-nil :
    (js : List Json) (names : List String)
    → parse_include js ≡ ok names
    → nonempty_names names ≡ ok names
parse_include-ne-nil [] names h = absurd (ground arith)
parse_include-ne-nil (j ∷ js) [] h =
    let (ns, t, k) = >>=-eq-ok (traverse discovered_name (j ∷ js)) check_distinct h in
    let (n, one, t1) = >>=-eq-ok (discovered_name j) _ t in
    let (rest, more, t2) = >>=-eq-ok (traverse discovered_name js) _ t1 in
    absurd (ground (arith, ok_inj t2))
parse_include-ne-nil (j ∷ js) (n ∷ names) h = refl

parse_discovery_json-ne-nil :
    (payload : Option Json) (names : List String)
    → parse_discovery_json payload ≡ ok names
    → nonempty_names names ≡ ok names
unfolding parse_discovery_json
parse_discovery_json-ne-nil none names h = absurd (ground arith)
parse_discovery_json-ne-nil (some matrix) names h = elim (Option-cases (include_of matrix)) [
  | inl missing ↦ absurd (ground arith)
  | inr (include, found) ↦
      parse_include-ne-nil include names (rw (found, parse_discovery_json) at h)
]

nonempty_names-eq : (xs names : List String) → nonempty_names xs ≡ ok names → xs ≡ names
nonempty_names-eq [] names h = absurd (ground arith)
nonempty_names-eq (x ∷ xs) names h = ok_inj h

canonical-accepted :
    (root : Root) (file : RegistryFile) (names : List String)
    → canonical_real_workloads root file ≡ ok names
    → (r : Registry) × (validate_repository root file ≡ ok r) × (names_of r.workloads ≡ names)
unfolding canonical_real_workloads
canonical-accepted root file names h = elim (Result-cases (validate_repository root file)) [
  | inl (e, failed) ↦ absurd (ground arith)
  | inr (r, accepted) ↦ (
    r,
    accepted,
    nonempty_names-eq (names_of r.workloads) names (rw (accepted, canonical_real_workloads) at h),
  )
]

module _ (scan : String → Result String ℕ) (root : Root) (file : RegistryFile)
    (payload : Option Json) where
  main_sound : main scan root file payload ≡ 0 → IsAuthorised scan root file payload
  unfolding main verify_discovery_names
  main_sound h = elim (Result-cases (verify_discovery_contract root file payload)) [
    | inl (e, failed) ↦ absurd (ground arith)
    | inr (names, held) ↦
        let (discovered, parsed, h1) = >>=-eq-ok (parse_discovery_json payload) _ held in
        let (canonical, is_canonical, h2) = >>=-eq-ok (canonical_real_workloads root file) _ h1 in
        let (r, accepted, listed) = canonical-accepted root file canonical is_canonical in
        let same : discovered ≡ canonical = same_names_eq discovered canonical (ground arith) in
        record {
          registry = r;
          accepted = accepted;
          discovered = rw (listed, ← same) parsed;
          passed = rw listed (ground (arith, run_all-is_empty scan names));
        }
  ]

  main_complete : IsAuthorised scan root file payload → main scan root file payload ≡ 0
  unfolding main
  main_complete x =
      let names : List String = names_of x.registry.workloads in
      rw (x.discovered, verify_discovery_contract)
        (rw (x.accepted, canonical_real_workloads)
          (rw (parse_discovery_json-ne-nil payload names x.discovered)
            (ground (arith, same_names_refl names, run_all-is_empty scan names, x.passed))))

-- The authority exits with 0 exactly when the registry is accepted, the discovery output names
-- exactly its workloads in order, and every one of their scans exits with 0.
pub main_iff :
    (scan : String → Result String ℕ) (root : Root) (file : RegistryFile) (payload : Option Json)
    → (main scan root file payload ≡ 0) ↔ IsAuthorised scan root file payload
main_iff scan root file payload =
    (main_sound scan root file payload, main_complete scan root file payload)
