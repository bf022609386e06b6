-- ===== src/Registry/Sound.antt =====
-- What an accepted entry guarantees, field by field.
use Prim.Native.Nat.{bit_and}
use oxide_batch_workloads.Base.{
  ◌≡◌, refl, ℕ, nat_eq, String, Bool, true, false, not, Option, none, some, List, map, is_some,
  contains, arith, Option-cases, inl, inr,
}
use oxide_batch_workloads.Base.Dict.{Dict}
use oxide_batch_workloads.Base.Json.{Json, get, as_dict, as_bool, as_str}
use oxide_batch_workloads.Base.Text.{is_blank}
use oxide_batch_workloads.Base.Result.{
  ok, >>=-eq-ok, >>-eq-ok, reject_if-eq-ok, require-eq-ok, ok_inj, is_ok,
}
use oxide_batch_workloads.Registry.{
  Kind, Root, Manifest, has_manifest, validate_name, validate_top_level_path, is_top_level,
}
use oxide_batch_workloads.Synthesis.{bad_name}
use oxide_batch_workloads.Registry.Msrv.{
  Msrv, rust_version_of, read_rust_version, check_policy, validate_msrv,
}
use oxide_batch_workloads.Registry.Entry.{
  Entry, Seen, is_executable, validate_contract_entrypoint, validate_fields, validate_entry,
}

-- A text that is there is not blank.
abbrev pub solid : Option String → Bool
solid none = true
solid (some s) = not (is_blank s)

-- There is a file, and some may execute it.
abbrev pub is_executable_file : Option ℕ → Bool
is_executable_file none = false
is_executable_file (some mode) = not (nat_eq (bit_and mode 0o111) 0)

-- The text at package.rust-version, if it is there.
abbrev pub version_in : Manifest → Option String
version_in (Manifest.document d) = elim (as_dict (get d "package")) [
  | none ↦ none
  | some section ↦ as_str (get section "rust-version")
]
version_in manifest = none

-- `Entry` agrees with the repository: a top-level directory with a manifest and an executable
-- entry point, whose MSRV is the one of the manifest, or is explained where there is none.
pub record IsSound (root : Root) (e : Entry) : Type 0 where
  pub top_level : is_top_level e.path ≡ true
  pub is_directory : root.is_dir e.path ≡ true
  pub manifested : has_manifest (root.manifest e.path) ≡ true
  pub entrypoint : is_executable_file (root.entrypoint e.path) ≡ true
  pub manifest_version : version_in (root.manifest e.path) ≡ e.msrv.version
  pub declared_version : e.msrv.declared ≡ is_some e.msrv.version
  pub explained : is_some e.msrv.policy_reason ≡ not e.msrv.declared
  pub safe_name : bad_name e.name ≡ false
  pub solid_version : solid e.msrv.version ≡ true
  pub solid_reason : solid e.msrv.policy_reason ≡ true

check_policy-agrees :
    (name : String) (declared : Bool) (d : Dict Json) (version : Option String) (m : Msrv)
    → check_policy name declared d version ≡ ok m
    → (m.version ≡ version)
      × (m.declared ≡ is_some m.version)
      × (is_some m.policy_reason ≡ not m.declared)
      × (solid m.policy_reason ≡ true)
unfolding check_policy
check_policy-agrees name true d version m h = ground arith
check_policy-agrees name false d none m h = ground arith
check_policy-agrees name false d (some v) m h = absurd (ground arith)

rust_version_of-solid :
    (name : String) (j : Json) (v : Option String) → rust_version_of name j ≡ ok v → solid v ≡ true
unfolding rust_version_of
rust_version_of-solid name Json.null v h = rw (← (ok_inj h))
rust_version_of-solid name (Json.str s) v h = ground arith
rust_version_of-solid name j v h = absurd (ground arith)

read_rust_version-solid :
    (name : String) (manifest : Manifest) (v : Option String)
    → read_rust_version name manifest ≡ ok v
    → solid v ≡ true
unfolding read_rust_version
read_rust_version-solid name (Manifest.document d) v h =
    elim (Option-cases (as_dict (get d "package"))) [
      | inl missing ↦ absurd (ground arith)
      | inr (section, found) ↦
          rust_version_of-solid name (get section "rust-version") v (ground arith)
    ]
read_rust_version-solid name manifest v h = absurd (ground arith)

validate_contract_entrypoint-is_executable_file :
    (name : String) (file : Option ℕ)
    → is_ok (validate_contract_entrypoint name file) ≡ true
    → is_executable_file file ≡ true
unfolding validate_contract_entrypoint is_executable
validate_contract_entrypoint-is_executable_file name none h = absurd (ground arith)
validate_contract_entrypoint-is_executable_file name (some mode) h = ground arith

rust_version_of-as_str :
    (name : String) (j : Json) (v : Option String) → rust_version_of name j ≡ ok v → as_str j ≡ v
unfolding rust_version_of
rust_version_of-as_str name Json.null v h = ok_inj h
rust_version_of-as_str name (Json.str s) v h = ground arith
rust_version_of-as_str name j v h = absurd (ground arith)

read_rust_version-version_in :
    (name : String) (manifest : Manifest) (v : Option String)
    → read_rust_version name manifest ≡ ok v
    → version_in manifest ≡ v
unfolding read_rust_version
read_rust_version-version_in name (Manifest.document d) v h =
    elim (Option-cases (as_dict (get d "package"))) [
      | inl missing ↦ absurd (ground arith)
      | inr (section, found) ↦
          rw (found, version_in)
            (rust_version_of-as_str name (get section "rust-version") v
              (rw (found, read_rust_version) at h))
    ]
read_rust_version-version_in name manifest v h = absurd (ground arith)

validate_msrv-agrees :
    (name : String) (j : Json) (manifest : Manifest) (m : Msrv)
    → validate_msrv name j manifest ≡ ok m
    → (read_rust_version name manifest ≡ ok m.version)
      × (m.declared ≡ is_some m.version)
      × (is_some m.policy_reason ≡ not m.declared)
      × (solid m.version ≡ true)
      × (solid m.policy_reason ≡ true)
unfolding validate_msrv
validate_msrv-agrees name j manifest m h = elim (Option-cases (as_dict j)) [
  | inl missing ↦ absurd (ground arith)
  | inr (d, found) ↦ elim (Option-cases (as_bool (get d "declared"))) [
    | inl unknown ↦ absurd (ground arith)
    | inr (declared, known) ↦
        let (version, v, c) =
          >>=-eq-ok (read_rust_version name manifest)
            (λ version. check_policy name declared d version)
            (rw (known, validate_msrv) at (rw (found, validate_msrv) at h)) in
        let (same, agrees, explained, reasoned) = check_policy-agrees name declared d version m c in
        (
          rw same v,
          agrees,
          explained,
          rw same (read_rust_version-solid name manifest version v),
          reasoned,
        )
  ]
]

validate_name-safe : (j : Json) (s : String) → validate_name j ≡ ok s → bad_name s ≡ false
unfolding validate_name bad_name
validate_name-safe (Json.str t) s h = ground arith
validate_name-safe j s h = absurd (ground arith)

validate_top_level_path-IsTopLevel :
    (j : Json) (kind : Kind) (p : String)
    → validate_top_level_path j kind ≡ ok p
    → is_top_level p ≡ true
unfolding validate_top_level_path
validate_top_level_path-IsTopLevel (Json.str s) kind p h = ground arith
validate_top_level_path-IsTopLevel j kind p h = absurd (ground arith)

-- An accepted entry, whose name and path were not seen before.
pub record IsNew (root : Root) (kind : Kind) (seen : Seen) (e : Entry) : Type 0 where
  pub sound : IsSound root e
  pub of_kind : e.kind ≡ kind
  pub new_name : contains seen.names e.name ≡ false
  pub new_path : contains seen.paths e.path ≡ false

module _ (root : Root) (kind : Kind) where
  validate_fields-IsNew :
      (d : Dict Json) (seen : Seen) (e : Entry)
      → validate_fields root kind d seen ≡ ok e
      → IsNew root kind seen e
  unfolding validate_fields
  validate_fields-IsNew d seen e h =
      let (name, named, h1) = >>=-eq-ok (validate_name (get d "name")) _ h in
      let (path, pathed, h2) = >>=-eq-ok (validate_top_level_path (get d "path") kind) _ h1 in
      let (n, h3) = reject_if-eq-ok (contains seen.names name) _ _ h2 in
      let (p, h4) = reject_if-eq-ok (contains seen.paths path) _ _ h3 in
      let (is_dir, h5) = require-eq-ok (root.is_dir path) _ _ h4 in
      let (manifested, h6) = require-eq-ok (has_manifest (root.manifest path)) _ _ h5 in
      let (entry, h7) = >>-eq-ok (validate_contract_entrypoint name (root.entrypoint path)) _ h6 in
      let (msrv, agreed, h8) =
        >>=-eq-ok (validate_msrv name (get d "msrv") (root.manifest path)) _ h7 in
      let (version, declared, explained, versioned, reasoned) =
        validate_msrv-agrees name (get d "msrv") (root.manifest path) msrv agreed in
      rw (← (ok_inj h8)) (record {
        sound = record {
          top_level = validate_top_level_path-IsTopLevel (get d "path") kind path pathed;
          is_directory = is_dir;
          manifested = manifested;
          entrypoint =
              validate_contract_entrypoint-is_executable_file name (root.entrypoint path) entry;
          manifest_version =
              read_rust_version-version_in name (root.manifest path) msrv.version version;
          declared_version = declared;
          explained = explained;
          safe_name = validate_name-safe (get d "name") name named;
          solid_version = versioned;
          solid_reason = reasoned;
        };
        of_kind = refl;
        new_name = n;
        new_path = p;
      })

  pub validate_entry-IsNew :
      (j : Json) (seen : Seen) (e : Entry)
      → validate_entry root kind j seen ≡ ok e
      → IsNew root kind seen e
  unfolding validate_entry
  validate_entry-IsNew j seen e h = elim (Option-cases (as_dict j)) [
    | inl missing ↦ absurd (ground arith)
    | inr (d, found) ↦ validate_fields-IsNew d seen e (ground arith)
  ]

abbrev pub names_of : List Entry → List String
names_of es = map (λ (e : Entry). e.name) es

abbrev pub paths_of : List Entry → List String
paths_of es = map (λ (e : Entry). e.path) es
