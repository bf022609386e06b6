-- ===== src/Evidence/Retained.antt =====
-- What an accepted evidence manifest guarantees, over all its sections.
use oxide_batch_workloads.Base.{
  ◌≡◌, refl, ap, ◌∙◌, String, ◌<>◌, true, false, ◌==◌, some, List, [], ◌∷◌, All, all, distinct,
  arith, Option-cases, inl, inr, if◌then◌else◌,
}
use oxide_batch_workloads.Base.Dict.{Dict}
use oxide_batch_workloads.Base.Json.{Json, get, equals_num, as_dict, as_list}
use oxide_batch_workloads.Base.Result.{
  Result, ok, err, >>=-eq-ok, >>-eq-ok, require-eq-ok, ok_inj, is_ok, Result-cases,
}
use oxide_batch_workloads.Registry.{Root, RegistryFile, no_file, no_json, value, Manifest}
use oxide_batch_workloads.Registry.Entry.{Entry}
use oxide_batch_workloads.Registry.Repository.{Registry}
use oxide_batch_workloads.Registry.Repository
use oxide_batch_workloads.Provenance
use oxide_batch_workloads.Provenance.{ProvenanceError}
use oxide_batch_workloads.Provenance.Lock.{validate_lockfile}
use oxide_batch_workloads.Provenance.Published.{is_published, validate_lockfile-is_published}
use oxide_batch_workloads.Evidence.{plain, EvidenceError, require_keys, require_hex, safe_path}
use oxide_batch_workloads.Evidence.Closure.{ClosureEntry}
use oxide_batch_workloads.Evidence.Validated.{validate_semantic_closure, same_set}
use oxide_batch_workloads.Evidence.Represented.{IsValidated, validate_semantic_closure-IsValidated}
use oxide_batch_workloads.Evidence.Sections.{
  is_text, validate_producer, validate_environment, closure_blob_oid, SectionError,
}
use oxide_batch_workloads.Evidence.Records.{field, Kept, kept_paths, validate_records}
use oxide_batch_workloads.Evidence.Retention.{validate_retention, closure_blob}
use oxide_batch_workloads.Evidence.Subject.{
  History, blob_of, snapshot_subjects, check_source_config, historical_provenance, validate_subject,
  provenance, Crate,
}
use oxide_batch_workloads.Evidence.Kept.{
  is_on_disk, validate_records-on_disk, IsWithin, limits_of, require_keys-as_dict,
  validate_retention-IsWithin,
}
use oxide_batch_workloads.Evidence.Listed.{AreRecords, validate_records-AreRecords}
use oxide_batch_workloads.Evidence.Manifest.{
  Directory, in_a_section, schema_version, sections, validate_rest, validate_document,
  validate_manifest, Retained, nothing, other_file, directory, workload_loop, validate_repository,
}

-- The Cargo.toml and the Cargo.lock of the closure, read from the history, are published.
abbrev pub IsPublished : History → List ClosureEntry → Type 0
IsPublished history entries =
    (manifest_oid : String) × (lock_oid : String) × (manifest : Manifest) × (lock : Manifest)
    × (closure_blob_oid entries "Cargo.toml" ≡ some manifest_oid)
    × (closure_blob_oid entries "Cargo.lock" ≡ some lock_oid)
    × (history.blob manifest_oid ≡ some manifest)
    × (history.blob lock_oid ≡ some lock)
    × (is_published manifest lock ≡ true)

closure_blob-is :
    (entries : List ClosureEntry) (path oid : String)
    → closure_blob entries path ≡ ok oid
    → closure_blob_oid entries path ≡ some oid
unfolding closure_blob
closure_blob-is entries path oid h = elim (Option-cases (closure_blob_oid entries path)) [
  | inl missing ↦ absurd (ground (arith, rw (missing, closure_blob) at h))
  | inr (found, is_found) ↦ is_found ∙ ap some (ok_inj (rw (is_found, closure_blob) at h))
]

blob_of-is :
    (history : History) (oid : String) (m : Manifest)
    → blob_of history oid ≡ ok m
    → history.blob oid ≡ some m
unfolding blob_of
blob_of-is history oid m h = elim (Option-cases (history.blob oid)) [
  | inl missing ↦ absurd (ground (arith, rw (missing, blob_of) at h))
  | inr (found, is_found) ↦ is_found ∙ ap some (ok_inj (rw (is_found, blob_of) at h))
]

provenance-eq-ok :
    {A : Type 0} (r : Result ProvenanceError A) (a : A) → provenance r ≡ ok a → r ≡ ok a
provenance-eq-ok (ok b) a h = ap ok (ok_inj h)
provenance-eq-ok (err e) a h = absurd (ground arith)

snapshot_subjects-is_published :
    (history : History) (path revision : String) (manifest lock : Manifest) (subjects : Dict String)
    → snapshot_subjects history path revision manifest lock ≡ ok subjects
    → is_published manifest lock ≡ true
unfolding snapshot_subjects
snapshot_subjects-is_published history path revision manifest lock subjects h =
    let (a, h1) = >>-eq-ok (check_source_config history revision "") _ h in
    let (b, h2) = >>-eq-ok (check_source_config history revision (path <> "/")) _ h1 in
    let (found, valid, h3) = >>=-eq-ok (Provenance.validate_manifest manifest) _ h2 in
    let (locked, h4) = >>-eq-ok (validate_lockfile lock found) _ h3 in
    validate_lockfile-is_published manifest lock found valid locked

historical_provenance-IsPublished :
    (history : History) (path : String) (entries : List ClosureEntry) (revision : String)
    (out : List Crate × String)
    → historical_provenance history path entries revision ≡ ok out
    → IsPublished history entries
unfolding historical_provenance
historical_provenance-IsPublished history path entries revision out h =
    let (manifest_oid, a, h1) = >>=-eq-ok (closure_blob entries "Cargo.toml") _ h in
    let (lock_oid, b, h2) = >>=-eq-ok (closure_blob entries "Cargo.lock") _ h1 in
    let (manifest, d, h3) = >>=-eq-ok (blob_of history manifest_oid) _ h2 in
    let (lock, e, h4) = >>=-eq-ok (blob_of history lock_oid) _ h3 in
    let (subjects, f, h5) =
      >>=-eq-ok (provenance (snapshot_subjects history path revision manifest lock)) _ h4 in
    (
      manifest_oid,
      lock_oid,
      manifest,
      lock,
      closure_blob-is entries "Cargo.toml" manifest_oid a,
      closure_blob-is entries "Cargo.lock" lock_oid b,
      blob_of-is history manifest_oid manifest d,
      blob_of-is history lock_oid lock e,
      snapshot_subjects-is_published history path revision manifest lock subjects
          (provenance-eq-ok (snapshot_subjects history path revision manifest lock) subjects f),
    )

validate_subject-IsPublished :
    (history : History) (path : String) (entries : List ClosureEntry) (revision : String) (j : Json)
    (done : Unit {0})
    → validate_subject history path entries revision j ≡ ok done
    → IsPublished history entries
unfolding validate_subject
validate_subject-IsPublished history path entries revision j done h =
    let (subject, a, h1) =
      >>=-eq-ok (field (require_keys j ("lockfile" ∷ "crates" ∷ []) (plain "validation_subject"))) _
        h in
    let (lockfile, b, h2) =
      >>=-eq-ok
        (field (
          require_keys (get subject "lockfile") ("path" ∷ "git_blob_oid" ∷ [])
            (plain "validation_subject.lockfile")))
        _ h1 in
    let (lock_path, d, h3) =
      >>=-eq-ok (field (safe_path (get lockfile "path") (plain "validation_subject.lockfile.path")))
        _ h2 in
    let (named, h4) = require-eq-ok (lock_path == "Cargo.lock") _ _ h3 in
    let (recorded, e, h5) =
      >>=-eq-ok
        (field (
          require_hex (get lockfile "git_blob_oid") 40
            (plain "validation_subject.lockfile.git_blob_oid")))
        _ h4 in
    let (expected, f, h6) = >>=-eq-ok (historical_provenance history path entries revision) _ h5 in
    historical_provenance-IsPublished history path entries revision expected f

-- A valid directory of evidence: the JSON files are those that the manifest records, as many and as
-- large as they may be, the closure is a valid one that leaves them out, and its Cargo files are
-- published.
pub record IsRetained (history : History) (path : String) (dir : Directory) (j : Json)
    : Type 0 where
  pub contents : Dict Json
  pub kept : List Kept
  pub entries : List ClosureEntry
  pub revision : String
  pub committed : Dict Json
  pub is_contents : as_dict j ≡ some contents
  pub records : List Json
  pub has_records : as_list (get contents "records") ≡ some records
  pub recorded : AreRecords dir.files records kept
  pub limits : limits_of (get contents "retention") ≡ some committed
  pub within : IsWithin committed kept
  pub layout : same_set dir.json_files (kept_paths kept) ≡ true
  pub apart : distinct (kept_paths kept) ≡ true
  pub on_disk : all (is_on_disk dir.files) kept ≡ true
  pub closed :
      IsValidated history.git path
        (get contents "semantic_closure")
        (kept_paths kept)
        entries
        revision
  pub published : IsPublished history entries

in_a_section-is_ok : {A : Type 0} (r : Result SectionError A) → is_ok (in_a_section r) ≡ is_ok r
in_a_section-is_ok (ok a) = refl
in_a_section-is_ok (err e) = refl

field-eq-ok : {A : Type 0} (r : Result EvidenceError A) (a : A) → field r ≡ ok a → r ≡ ok a
field-eq-ok (ok b) a h = ap ok (ok_inj h)
field-eq-ok (err e) a h = absurd (ground arith)

validate_rest-ok :
    (history : History) (path : String) (dir : Directory) (d : Dict Json) (kept : List Kept)
    (entries : List ClosureEntry) (revision : String) (done : Unit {0})
    → validate_rest history path dir d kept entries revision ≡ ok done
    → IsPublished history entries
      × (is_ok (validate_retention dir.json_files (get d "retention") kept) ≡ true)
unfolding validate_rest
validate_rest-ok history path dir d kept entries revision done h =
    let (subject, h1) =
      >>-eq-ok (validate_subject history path entries revision (get d "validation_subject")) _ h in
    let (environment, h2) =
      >>-eq-ok (in_a_section (validate_environment (get d "environment"))) _ h1 in
    let (retention, h3) =
      >>-eq-ok (validate_retention dir.json_files (get d "retention") kept) _ h2 in
    elim (Result-cases
      (validate_subject history path entries revision (get d "validation_subject"))) [
        | inl (e, failed) ↦ absurd (ground (arith, rw failed at subject))
        | inr (u, accepted) ↦ (
          validate_subject-IsPublished history path entries revision (get d "validation_subject") u
              accepted,
          retention,
        )
      ]

validate_document-IsRetained :
    (history : History) (name path : String) (dir : Directory) (j : Json) (done : Unit {0})
    → validate_document history name path dir j ≡ ok done
    → IsRetained history path dir j
unfolding validate_document
validate_document-IsRetained history name path dir j done h =
    let (d, a, h1) = >>=-eq-ok (field (require_keys j sections (plain "evidence manifest"))) _ h in
    let (schema, h2) = require-eq-ok (equals_num (get d "schema_version") schema_version) _ _ h1 in
    let (named, h3) = require-eq-ok (is_text (get d "workload") name) _ _ h2 in
    let (producer, b, h4) =
      >>=-eq-ok (in_a_section (validate_producer history.commit_available (get d "producer"))) _
        h3 in
    let (kept, e, h5) = >>=-eq-ok (validate_records dir.files (get d "records")) _ h4 in
    let (closed, f, h6) =
      >>=-eq-ok
        (field (
          validate_semantic_closure history.git path producer.0 producer.1
            (get d "semantic_closure") (kept_paths kept)))
        _ h5 in
    let (published, retention) =
      validate_rest-ok history path dir d kept (closed.0)
        (if producer.1 then producer.0 else closed.1) done h6 in
    let (committed, limits, within, layout) =
      validate_retention-IsWithin dir.json_files (get d "retention") kept retention in
    let (apart, on_disk) = validate_records-on_disk dir.files (get d "records") kept e in
    let (records, has_records, recorded) =
      validate_records-AreRecords dir.files (get d "records") kept e in
    record {
      contents = d;
      kept = kept;
      entries = closed.0;
      revision = closed.1;
      committed = committed;
      is_contents = require_keys-as_dict j sections (plain "evidence manifest") d a;
      records = records;
      has_records = has_records;
      recorded = recorded;
      limits = limits;
      within = within;
      layout = layout;
      apart = apart;
      on_disk = on_disk;
      closed =
          validate_semantic_closure-IsValidated history.git path producer.0 producer.1
            (get d "semantic_closure") (kept_paths kept) (closed.0) (closed.1)
            (field-eq-ok _ closed f);
      published = published;
    }

-- What a workload has at validation/ is nothing, or valid evidence.
abbrev pub KeepsValid : History → String → Retained → Type 0
KeepsValid history path nothing = Unit
KeepsValid history path other_file = false ≡ true
KeepsValid history path (directory dir) =
    (j : Json) × (dir.manifest ≡ value j) × IsRetained history path dir j

validate_manifest-KeepsValid :
    (history : History) (name path : String) (dir : Directory)
    → is_ok (validate_manifest history name path dir) ≡ true
    → KeepsValid history path (directory dir)
unfolding validate_manifest
validate_manifest-KeepsValid history name path dir h = by_manifest dir.manifest refl
  where
    by_manifest : (m : RegistryFile) → dir.manifest ≡ m → KeepsValid history path (directory dir)
    by_manifest no_file same = absurd (ground (arith, rw (same, validate_manifest) at h))
    by_manifest no_json same = absurd (ground (arith, rw (same, validate_manifest) at h))
    by_manifest (value j) same = elim (Result-cases (validate_document history name path dir j)) [
      | inl (e, failed) ↦ absurd (ground (arith, rw (same, failed, validate_manifest) at h))
      | inr (u, accepted) ↦
          (j, same, validate_document-IsRetained history name path dir j u accepted)
    ]

workload_loop-KeepsValid :
    (history : History) (retained : String → Retained) (es : List Entry) (names : List String)
    → workload_loop history retained es ≡ ok names
    → All (λ e. KeepsValid history e.path (retained e.path)) es
unfolding workload_loop
workload_loop-KeepsValid history retained [] names h = tt
workload_loop-KeepsValid history retained (e ∷ es) names h =
    by_kind (retained e.path) refl (workload_loop-KeepsValid history retained es)
  where
    by_kind :
        (k : Retained)
        → retained e.path ≡ k
        → ((rest : List String)
            → workload_loop history retained es ≡ ok rest
            → All (λ f. KeepsValid history f.path (retained f.path)) es)
        → All (λ f. KeepsValid history f.path (retained f.path)) (e ∷ es)
    by_kind nothing same later = (rw same tt, later names (rw (same, workload_loop) at h))
    by_kind other_file same later = absurd (ground (arith, rw (same, workload_loop) at h))
    by_kind (directory dir) same later =
        let (valid, h1) =
          >>-eq-ok (validate_manifest history e.name e.path dir) _
            (rw (same, workload_loop) at h) in
        let (rest, a, h2) = >>=-eq-ok (workload_loop history retained es) _ h1 in
        (rw same (validate_manifest-KeepsValid history e.name e.path dir valid), later rest a)

-- If the repository is accepted, then the registry is accepted, and every workload has either no
-- validation/ or a directory of valid evidence there: its JSON files are exactly the recorded
-- ones, which are distinct, on the disk, and within the limits of the manifest; the semantic
-- closure is valid and leaves them out; and the Cargo files of the closure are published.
pub validate_repository-KeepsValid :
    (history : History) (root : Root) (file : RegistryFile) (retained : String → Retained)
    (names : List String)
    → validate_repository history root file retained ≡ ok names
    → (registry : Registry) × (Repository.validate_repository root file ≡ ok registry)
      × All (λ e. KeepsValid history e.path (retained e.path)) registry.workloads
unfolding validate_repository
validate_repository-KeepsValid history root file retained names h =
    elim (Result-cases (Repository.validate_repository root file)) [
      | inl (e, failed) ↦ absurd (ground (arith, rw (failed, validate_repository) at h))
      | inr (registry, accepted) ↦ (
        registry,
        accepted,
        workload_loop-KeepsValid history retained registry.workloads names
            (rw (accepted, validate_repository) at h),
      )
    ]
