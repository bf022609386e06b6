-- ===== src/Registry/Msrv.antt =====
-- The MSRV policy of an entry, which must agree with its Cargo.toml.
use oxide_batch_workloads.Base.{
  String, Bool, true, false, Option, none, some, [], ◌∷◌, is_some, if◌then◌else◌,
}
use oxide_batch_workloads.Base.Dict.{Dict}
use oxide_batch_workloads.Base.Json.{Json, get, as_dict, as_str, as_bool}
use oxide_batch_workloads.Base.Text.{is_blank}
use oxide_batch_workloads.Base.Result.{Result, ok, err, ◌>>=◌, ◌>>◌, require}
use oxide_batch_workloads.Registry.{
  RegistryError, missing_manifest, invalid_manifest, missing_package, blank_rust_version,
  msrv_not_object, declared_not_bool, declared_extra_keys, declared_without_version,
  undeclared_wrong_keys, blank_policy_reason, undeclared_with_version, Manifest, absent, invalid,
  document, same_keys,
}

pub record Msrv : Type 0 where
  pub declared : Bool
  pub version : Option String
  pub policy_reason : Option String

-- `package.get("rust-version")`, checked.
unfoldable pub rust_version_of : String → Json → Result RegistryError (Option String)
unfolding is_blank
rust_version_of name Json.null = ok none
rust_version_of name (Json.str s) =
    if is_blank s then err (blank_rust_version name) else ok (some s)
rust_version_of name j = err (blank_rust_version name)

unfoldable pub read_rust_version : String → Manifest → Result RegistryError (Option String)
unfolding rust_version_of get
read_rust_version name absent = err (missing_manifest name)
read_rust_version name invalid = err (invalid_manifest name)
read_rust_version name (document d) = elim (as_dict (get d "package")) [
  | none ↦ err (missing_package name)
  | some section ↦ rust_version_of name (get section "rust-version")
]

-- The rules for a declared and for an undeclared MSRV.
unfoldable pub check_policy : String → Bool → Dict Json → Option String → Result RegistryError Msrv
unfolding same_keys get is_blank
check_policy name true msrv version = do
  require (same_keys msrv ("declared" ∷ [])) (declared_extra_keys name)
  require (is_some version) (declared_without_version name)
  ok (record { declared = true; version = version; policy_reason = none })
check_policy name false msrv version = do
  require (same_keys msrv ("declared" ∷ "policy_reason" ∷ [])) (undeclared_wrong_keys name)
  elim (as_str (get msrv "policy_reason")) [
    | none ↦ err (blank_policy_reason name)
    | some reason ↦
        if is_blank reason
        then err (blank_policy_reason name)
        else if is_some version
        then err (undeclared_with_version name)
        else ok (record { declared = false; version = none; policy_reason = some reason })
  ]

unfoldable pub validate_msrv : String → Json → Manifest → Result RegistryError Msrv
unfolding read_rust_version check_policy get
validate_msrv name msrv manifest = elim (as_dict msrv) [
  | none ↦ err (msrv_not_object name)
  | some d ↦ elim (as_bool (get d "declared")) [
    | none ↦ err (declared_not_bool name)
    | some declared ↦
        read_rust_version name manifest >>= λ version. check_policy name declared d version
  ]
]
