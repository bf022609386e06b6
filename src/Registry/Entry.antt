-- ===== src/Registry/Entry.antt =====
-- One entry of the registry.
use Prim.Native.Nat.{bit_and}
use oxide_batch_workloads.Base.{
  ℕ, String, Bool, not, Option, none, some, List, [], ◌∷◌, contains, nat_eq, if◌then◌else◌,
}
use oxide_batch_workloads.Base.Dict.{Dict}
use oxide_batch_workloads.Base.Json.{Json, get, as_dict}
use oxide_batch_workloads.Base.Result.{Result, ok, err, ◌>>=◌, ◌>>◌, reject_if, require}
use oxide_batch_workloads.Registry.{
  Kind, RegistryError, missing_entrypoint, not_executable, wrong_entry_keys, duplicate_name,
  duplicate_path, path_missing, no_cargo_toml, Root, has_manifest, same_keys, validate_name,
  validate_top_level_path,
}
use oxide_batch_workloads.Registry.Msrv.{Msrv, validate_msrv}

pub record Entry : Type 0 where
  pub kind : Kind
  pub name : String
  pub path : String
  pub msrv : Msrv

-- `S_IXUSR | S_IXGRP | S_IXOTH`
abbrev pub executable_bits : ℕ
executable_bits = 0o111

unfoldable pub is_executable : ℕ → Bool
is_executable mode = not (nat_eq (bit_and mode executable_bits) 0)

unfoldable pub validate_contract_entrypoint : String → Option ℕ → Result RegistryError (Unit {0})
unfolding is_executable
validate_contract_entrypoint name none = err (missing_entrypoint name)
validate_contract_entrypoint name (some mode) = require (is_executable mode) (not_executable name)

abbrev pub required_entry_keys : List String
required_entry_keys = "name" ∷ "path" ∷ "msrv" ∷ []

-- The sets that `validate_entry` reads and extends.
pub record Seen : Type 0 where
  pub names : List String
  pub paths : List String

module _ (root : Root) (kind : Kind) where
  -- The checks of `validate_entry` below those on the keys.
  unfoldable pub validate_fields : Dict Json → Seen → Result RegistryError Entry
  unfolding validate_name validate_top_level_path validate_contract_entrypoint validate_msrv
      has_manifest get
  validate_fields d seen = do
    name ← validate_name (get d "name")
    path ← validate_top_level_path (get d "path") kind
    reject_if (contains seen.names name) (duplicate_name name)
    reject_if (contains seen.paths path) (duplicate_path path)
    require (root.is_dir path) (path_missing path)
    require (has_manifest (root.manifest path)) (no_cargo_toml path)
    validate_contract_entrypoint name (root.entrypoint path)
    msrv ← validate_msrv name (get d "msrv") (root.manifest path)
    ok (record { kind = kind; name = name; path = path; msrv = msrv })

  -- The new entry; the names and paths seen after it are those before and its own.
  unfoldable pub validate_entry : Json → Seen → Result RegistryError Entry
  unfolding validate_fields same_keys
  validate_entry entry seen = elim (as_dict entry) [
    | none ↦ err (wrong_entry_keys kind)
    | some d ↦
        if same_keys d required_entry_keys
        then validate_fields d seen
        else err (wrong_entry_keys kind)
  ]

abbrev pub see : Entry → Seen → Seen
see e seen = record { names = e.name ∷ seen.names; paths = e.path ∷ seen.paths }
