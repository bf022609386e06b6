-- ===== src/Evidence/Sections.antt =====
-- The sections of an evidence manifest that are checked field by field: the producer, the
-- environment and the external artifacts.
use oxide_batch_workloads.Base.{
  ℕ, suc, String, Bool, true, false, ◌==◌, Option, none, some, List, [], ◌∷◌, any, contains,
  if◌then◌else◌,
}
use oxide_batch_workloads.Base.Json.{Json, get, as_list, as_str, hashable}
use oxide_batch_workloads.Base.Text.{is_blank}
use oxide_batch_workloads.Base.Result.{Result, ok, err, ◌>>=◌, ◌>>◌, reject_if, require}
use oxide_batch_workloads.Evidence.{
  Field, plain, item, EvidenceError, require_keys, require_string, require_hex,
}
use oxide_batch_workloads.Evidence.Closure.{ClosureEntry}

-- A message of `EvidenceError`, or the TypeError of a list or a dict that a set is asked for.
pub data SectionError : Type 0 where
  invalid : EvidenceError → SectionError
  type_error wrong_role no_attestation no_observations wrong_limitations no_array : SectionError
  wrong_binding not_scalar wrong_trust : Field → SectionError
  duplicate_observation : String → SectionError

abbrev pub lift {ℓ} : {A : Type ℓ} → Result EvidenceError A → Result SectionError A
lift (ok a) = ok a
lift (err e) = err (invalid e)

abbrev pub trust_classes : List String
trust_classes =
    "recorded-metadata" ∷ "schema-checked" ∷ "deterministically-recomputed"
    ∷ "trusted-producer-bound" ∷ []

-- `value in names`, for a set of names.
abbrev among : Json → List String → SectionError → Result SectionError (Unit {0})
among value names e =
    require (hashable value) type_error
    >> require (elim (as_str value) [ none ↦ false | some s ↦ contains names s ]) e

abbrev pub is_text : Json → String → Bool
is_text value t = elim (as_str value) [ none ↦ false | some s ↦ s == t ]

abbrev optional_string : Json → Field → Result EvidenceError (Unit {0})
optional_string Json.null f = ok tt
optional_string value f = require_string value f >>= λ s. ok tt

-- `validate_producer`, with the test `git cat-file -e` as a parameter.
unfoldable pub validate_producer : (String → Bool) → Json → Result SectionError (String × Bool)
unfolding require_keys require_string require_hex get
validate_producer commit_available value = do
  producer ←
      lift (require_keys value ("base_revision" ∷ "revision_role" ∷ "run" ∷ []) (plain "producer"))
  revision ← lift (require_hex (get producer "base_revision") 40 (plain "producer.base_revision"))
  among (get producer "revision_role") ("producer-checkout" ∷ "legacy-source-snapshot" ∷ [])
      wrong_role
  run ← lift (
      require_keys (get producer "run") ("kind" ∷ "identity" ∷ "binding" ∷ [])
        (plain "producer.run"))
  kind ← lift (require_string (get run "kind") (plain "producer.run.kind"))
  lift (optional_string (get run "identity") (plain "producer.run.identity"))
  among (get run "binding") trust_classes (wrong_binding (plain "producer.run.binding"))
  reject_if (is_text (get run "binding") "trusted-producer-bound") no_attestation
  ok (revision, commit_available revision)

abbrev is_scalar : Json → Bool
is_scalar Json.null = false
is_scalar (Json.arr js) = false
is_scalar (Json.obj fs) = false
is_scalar value = true

abbrev observations : String
observations = "environment.observations"

-- One observation; the names seen are a list.
unfoldable pub validate_observation : List String → ℕ → Json → Result SectionError String
unfolding require_keys require_string get
validate_observation seen index j = do
  d ←
      lift
        (require_keys j ("name" ∷ "value" ∷ "trust" ∷ "source" ∷ []) (item observations index ""))
  name ← lift (require_string (get d "name") (item observations index ".name"))
  reject_if (contains seen name) (duplicate_observation name)
  require (is_scalar (get d "value")) (not_scalar (item observations index ".value"))
  among (get d "trust") trust_classes (wrong_trust (item observations index ".trust"))
  source ← lift (require_string (get d "source") (item observations index ".source"))
  ok name

unfoldable pub observation_loop : List String → ℕ → List Json → Result SectionError (Unit {0})
unfolding validate_observation
observation_loop seen index [] = ok tt
observation_loop seen index (j ∷ js) =
    validate_observation seen index j >>= λ name. observation_loop (name ∷ seen) (suc index) js

abbrev lacks_content : Json → Bool
lacks_content j = elim (as_str j) [ none ↦ true | some s ↦ is_blank s ]

unfoldable pub validate_limitations : Json → Result SectionError (Unit {0})
unfolding is_blank
validate_limitations value = elim (as_list value) [
  | none ↦ err wrong_limitations
  | some js ↦ reject_if (any lacks_content js) wrong_limitations
]

unfoldable pub validate_environment : Json → Result SectionError (Unit {0})
unfolding require_keys observation_loop validate_limitations get
validate_environment value =
    lift (require_keys value ("observations" ∷ "limitations" ∷ []) (plain "environment"))
    >>= λ environment. (elim (as_list (get environment "observations")) [
      | none ↦ err no_observations
      | some [] ↦ err no_observations
      | some (j ∷ js) ↦
          observation_loop [] 0 (j ∷ js) >> validate_limitations (get environment "limitations")
    ])

-- One round of the loop of `validate_external_artifacts`.
unfoldable pub validate_artifact : ℕ → Json → Result EvidenceError (Unit {0})
unfolding require_keys require_string require_hex get
validate_artifact index j = do
  d ←
      require_keys j ("name" ∷ "sha256" ∷ "reference" ∷ "storage" ∷ "retention_guarantee" ∷ [])
        (item "external_artifacts" index "")
  name ← require_string (get d "name") (item "external_artifacts" index ".name")
  sha256 ← require_hex (get d "sha256") 64 (item "external_artifacts" index ".sha256")
  reference ← require_string (get d "reference") (item "external_artifacts" index ".reference")
  storage ← require_string (get d "storage") (item "external_artifacts" index ".storage")
  guarantee ←
      require_string (get d "retention_guarantee")
        (item "external_artifacts" index ".retention_guarantee")
  ok tt

unfoldable pub artifact_loop : ℕ → List Json → Result EvidenceError (Unit {0})
unfolding validate_artifact
artifact_loop index [] = ok tt
artifact_loop index (j ∷ js) = validate_artifact index j >> artifact_loop (suc index) js

unfoldable pub validate_external_artifacts : Json → Result SectionError (Unit {0})
unfolding artifact_loop
validate_external_artifacts value = elim (as_list value) [
  | none ↦ err no_array
  | some js ↦ lift (artifact_loop 0 js)
]

-- The blob that the closure has for a path.
unfoldable pub closure_blob_oid : List ClosureEntry → String → Option String
closure_blob_oid [] path = none
closure_blob_oid (e ∷ es) path =
    let rest = closure_blob_oid es path in if e.path == path then some e.oid else rest
