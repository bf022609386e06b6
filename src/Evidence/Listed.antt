-- ===== src/Evidence/Listed.antt =====
-- What the retained artifacts have to do with the records of the manifest.
use mathlib.Core.Path.{subst}
use oxide_batch_workloads.Base.{
  ◌≡◌, refl, ◌∙◌, sym, ap, ℕ, suc, String, true, false, not, ◌&&◌, ◌==◌, Option, none, some, List,
  [], ◌∷◌, contains, starts_with, nat_eq, eq_iff, arith, Option-cases, inl, inr,
}
use oxide_batch_workloads.Base.Dict.{Dict}
use oxide_batch_workloads.Base.Json.{Json, get, as_dict, as_list, as_nat, as_str}
use oxide_batch_workloads.Base.Result.{
  Result, ok, err, >>=-eq-ok, >>-eq-ok, require-eq-ok, reject_if-eq-ok, ok_inj,
}
use oxide_batch_workloads.Provenance.Repository.{last_part}
use oxide_batch_workloads.Registry.{path_parts}
use oxide_batch_workloads.Evidence.{
  Field, item, EvidenceError, require_keys, require_string, require_hex, safe_path,
}
use oxide_batch_workloads.Evidence.Safe.{IsSafePath, safe_path-IsSafePath}
use oxide_batch_workloads.Evidence.Records.{
  field, RetainedFile, Kept, compare_file, validate_retained, validate_input, is_dict,
  is_failure_point, validate_record, record_loop, validate_records,
}
use oxide_batch_workloads.Evidence.Kept.{require_keys-as_dict}

-- The record names the artifact: its path, the digest of the file there, and its size.
pub record IsRecord (files : String → Option RetainedFile) (j : Json) (k : Kept) : Type 0 where
  pub entry : Dict Json
  pub is_entry : as_dict j ≡ some entry
  pub artifact : Dict Json
  pub is_artifact : as_dict (get entry "artifact") ≡ some artifact
  pub named : IsSafePath (get artifact "path") k.path
  pub file : RetainedFile
  pub there : files k.path ≡ some file
  pub digest : as_str (get artifact "sha256") ≡ some file.sha256
  pub counted : as_nat (get artifact "size_bytes") ≡ some file.size
  pub size : k.size ≡ file.size

-- The values are the records of these artifacts, in this order.
abbrev pub AreRecords : (String → Option RetainedFile) → List Json → List Kept → Type 0
AreRecords files [] [] = Unit
AreRecords files (j ∷ js) (k ∷ ks) = IsRecord files j k × AreRecords files js ks
AreRecords files js ks = false ≡ true

abbrev record_keys : List String
record_keys = "scenario" ∷ "artifact" ∷ "input" ∷ "parameters" ∷ "failure_point" ∷ []

abbrev artifact_keys : List String
artifact_keys = "path" ∷ "sha256" ∷ "size_bytes" ∷ []

field-ok : {A : Type 0} (r : Result EvidenceError A) (a : A) → field r ≡ ok a → r ≡ ok a
field-ok (ok b) a h = ap ok (ok_inj h)
field-ok (err e) a h = absurd (ground arith)

require_hex-as_str :
    (j : Json) (n : ℕ) (f : Field) (s : String) → require_hex j n f ≡ ok s → as_str j ≡ some s
unfolding require_hex
require_hex-as_str j n f s h = elim (Option-cases (as_str j)) [
  | inl missing ↦ absurd (ground (arith, rw (missing, require_hex) at h))
  | inr (t, found) ↦ found ∙ (ground (arith, rw (found, require_hex) at h))
]

module _ (files : String → Option RetainedFile) where
  compare_file-same :
      (f : Field) (path expected : String) (size : Option ℕ) (file : Option RetainedFile)
      (out : String × ℕ)
      → compare_file f path expected size file ≡ ok out
      → (found : RetainedFile) × (file ≡ some found)
        × (found.sha256 ≡ expected)
        × (size ≡ some found.size)
        × (path ≡ out.0)
        × (out.1 ≡ found.size)
  unfolding compare_file
  compare_file-same f path expected none file out h = absurd (ground arith)
  compare_file-same f path expected (some size) none out h = absurd (ground arith)
  compare_file-same f path expected (some size) (some file) out h =
      let (digest, h1) = require-eq-ok (file.sha256 == expected) _ _ h in
      let (same_size, h2) = require-eq-ok (nat_eq file.size size) _ _ h1 in
      let same : (path, file.size) ≡ out = ok_inj h2 in
      (
        file,
        refl,
        (eq_iff file.sha256 expected).0 digest,
        ap some (ground arith),
        ap (λ p. p.0) same,
        sym (ap (λ p. p.1) same),
      )

  validate_record-IsRecord :
      (scenarios paths : List String) (index : ℕ) (value : Json) (k : Kept)
      → validate_record files scenarios paths index value ≡ ok k
      → IsRecord files value k
  unfolding validate_record validate_retained
  validate_record-IsRecord scenarios paths index value k h =
      let (entry, a, h1) =
        >>=-eq-ok (field (require_keys value record_keys (item "records" index ""))) _ h in
      let (scenario, b, h2) =
        >>=-eq-ok (field (require_string (get entry "scenario") (item "records" index ".scenario")))
          _ h1 in
      let (fresh, h3) = reject_if-eq-ok (contains scenarios scenario) _ _ h2 in
      let (retained, d, h4) =
        >>=-eq-ok (validate_retained files paths index (get entry "artifact")) _ h3 in
      let (input, h5) = >>-eq-ok (validate_input index (get entry "input")) _ h4 in
      let (parameters, h6) = require-eq-ok (is_dict (get entry "parameters")) _ _ h5 in
      let (failure, h7) = require-eq-ok (is_failure_point (get entry "failure_point")) _ _ h6 in
      let same : record { scenario = scenario; path = retained.0; size = retained.1 } ≡ k =
        ok_inj h7 in
      let (artifact, e, h8) =
        >>=-eq-ok
          (field
            (require_keys (get entry "artifact") artifact_keys (item "records" index ".artifact")))
          _ d in
      let (path, is_path, h9) =
        >>=-eq-ok (field (safe_path (get artifact "path") (item "records" index ".artifact.path")))
          _ h8 in
      let (generated, h10) =
        require-eq-ok
          (starts_with path "validation/"
            && not (last_part (path_parts path) == "evidence-manifest.json"))
          _ _ h9 in
      let (new, h11) = reject_if-eq-ok (contains paths path) _ _ h10 in
      let (expected, is_digest, h12) =
        >>=-eq-ok
          (field (require_hex (get artifact "sha256") 64 (item "records" index ".artifact.sha256")))
          _ h11 in
      let (file, there, digest, size, same_path, same_size) =
        compare_file-same _ path expected (as_nat (get artifact "size_bytes")) (files path) retained
          h12 in
      let its_path : path ≡ k.path = same_path ∙ ap (λ (x : Kept). x.path) same in
      record {
        entry = entry;
        is_entry = require_keys-as_dict value record_keys (item "records" index "") entry a;
        artifact = artifact;
        is_artifact =
            require_keys-as_dict (get entry "artifact") artifact_keys
              (item "records" index ".artifact") artifact e;
        named =
            subst (IsSafePath (get artifact "path")) its_path
              (safe_path-IsSafePath _ (get artifact "path") path (field-ok _ path is_path));
        file = file;
        there = ap files (sym its_path) ∙ there;
        digest =
            require_hex-as_str (get artifact "sha256") 64 _ expected (field-ok _ expected is_digest)
            ∙ ap some (sym digest);
        counted = size;
        size = ap (λ (x : Kept). x.size) (sym same) ∙ same_size;
      }

  record_loop-AreRecords :
      (scenarios paths : List String) (index : ℕ) (js : List Json) (kept : List Kept)
      → record_loop files scenarios paths index js ≡ ok kept
      → AreRecords files js kept
  unfolding record_loop
  record_loop-AreRecords scenarios paths index [] kept h = subst (AreRecords files []) (ok_inj h) tt
  record_loop-AreRecords scenarios paths index (j ∷ js) kept h =
      let (k, a, h1) = >>=-eq-ok (validate_record files scenarios paths index j) _ h in
      let (rest, b, h2) =
        >>=-eq-ok (record_loop files (k.scenario ∷ scenarios) (k.path ∷ paths) (suc index) js) _
          h1 in
      subst (AreRecords files (j ∷ js)) (ok_inj h2) (
        validate_record-IsRecord scenarios paths index j k a,
        record_loop-AreRecords (k.scenario ∷ scenarios) (k.path ∷ paths) (suc index) js rest b,
      )

  -- Accepted records are an array of records of these artifacts.
  pub validate_records-AreRecords :
      (value : Json) (kept : List Kept)
      → validate_records files value ≡ ok kept
      → (js : List Json) × (as_list value ≡ some js) × AreRecords files js kept
  unfolding validate_records
  validate_records-AreRecords value kept h = elim (Option-cases (as_list value)) [
    | inl missing ↦ absurd (ground (arith, rw (missing, validate_records) at h))
    | inr ([], found) ↦ absurd (ground (arith, rw (found, validate_records) at h))
    | inr (j ∷ js, found) ↦ (
      j ∷ js,
      found,
      record_loop-AreRecords [] [] 0 (j ∷ js) kept (rw (found, validate_records) at h),
    )
  ]
