-- ===== src/Registry/Repository.antt =====
-- The whole registry against the repository's root.
use oxide_batch_workloads.Base.{
  ℕ, String, Bool, false, not, ◌&&◌, none, some, List, [], ◌∷◌, ◌++◌, is_empty, contains, select,
  sorted, starts_with, text_leb, if◌then◌else◌,
}
use oxide_batch_workloads.Base.Dict.{Dict, has_key}
use oxide_batch_workloads.Base.Json.{Json, get, as_dict, as_list, arr, nil}
use oxide_batch_workloads.Base.Text.{is_blank}
use oxide_batch_workloads.Base.Result.{Result, ok, err, ◌>>=◌, ◌>>◌, reject_if, require}
use oxide_batch_workloads.Registry.{
  Kind, workload, fixture, reserved_project, RegistryError, workloads_empty, fixtures_not_list,
  reserved_not_list, reserved_wrong_keys, reserved_blank_reason, duplicate_reserved,
  reserved_and_registered, reserved_missing, unregistered, stale, Root, RegistryFile, has_manifest,
  same_keys, load_registry, validate_top_level_path,
}
use oxide_batch_workloads.Registry.Entry.{Entry, Seen, validate_entry, see}

-- `d.get(k, [])`
unfoldable pub get_list : Dict Json → String → Json
unfolding get
get_list d k = if has_key d k then get d k else arr nil

abbrev pub by_path : Entry → Entry → Bool
by_path e f = text_leb e.path f.path

unfoldable pub insert_by_path : Entry → List Entry → List Entry
insert_by_path e [] = e ∷ []
insert_by_path e (f ∷ fs) =
    let later = f ∷ insert_by_path e fs in if by_path e f then e ∷ f ∷ fs else later

-- `sorted(entries, key=lambda entry: entry["path"])`
unfoldable pub sort_by_path : List Entry → List Entry
unfolding insert_by_path
sort_by_path [] = []
sort_by_path (e ∷ es) = insert_by_path e (sort_by_path es)

-- The text of a reason that is not blank.
unfoldable pub has_reason : Json → Bool
unfolding is_blank
has_reason (Json.str s) = not (is_blank s)
has_reason j = false

-- What `validate_repository` returns.
pub record Registry : Type 0 where
  pub workloads : List Entry
  pub fixtures : List Entry

module _ (root : Root) where
  -- `[validate_entry(kind, entry, …) for entry in entries]`, and the sets after it.
  unfoldable pub validate_entries :
      Kind → List Json → Seen → Result RegistryError (List Entry × Seen)
  unfolding validate_entry
  validate_entries kind [] seen = ok ([], seen)
  validate_entries kind (j ∷ js) seen = validate_entry root kind j seen >>= λ e.
      validate_entries kind js (see e seen) >>= λ rest. ok (e ∷ rest.0, rest.1)

  unfoldable pub is_project : String → Bool
  unfolding has_manifest
  is_project path = root.is_dir path && has_manifest (root.manifest path)

  -- The checks on a reserved project's path and reason.
  unfoldable pub validate_reserved_fields :
      Dict Json → Seen → List String → Result RegistryError String
  unfolding validate_top_level_path has_reason is_project get
  validate_reserved_fields d seen reserved = do
    path ← validate_top_level_path (get d "path") reserved_project
    require (has_reason (get d "reason")) (reserved_blank_reason path)
    reject_if (contains reserved path) (duplicate_reserved path)
    reject_if (contains seen.paths path) (reserved_and_registered path)
    require (is_project path) (reserved_missing path)
    ok path

  -- One round of the loop over the reserved projects.
  unfoldable pub validate_reserved : Json → Seen → List String → Result RegistryError String
  unfolding validate_reserved_fields same_keys
  validate_reserved j seen reserved = elim (as_dict j) [
    | none ↦ err reserved_wrong_keys
    | some d ↦
        if same_keys d ("path" ∷ "reason" ∷ [])
        then validate_reserved_fields d seen reserved
        else err reserved_wrong_keys
  ]

  -- The loop that fills `reserved_paths`.
  unfoldable pub reserve : List Json → Seen → List String → Result RegistryError (List String)
  unfolding validate_reserved
  reserve [] seen reserved = ok reserved
  reserve (j ∷ js) seen reserved =
      validate_reserved j seen reserved >>= λ path. reserve js seen (path ∷ reserved)

  -- The names of the top-level directories with a Cargo.toml.
  unfoldable pub candidates : List String
  unfolding is_project
  candidates = select (λ c. not (starts_with c ".") && is_project c) root.children

  -- The last two checks of `validate_repository`.
  unfoldable pub check_accounted : List String → Result RegistryError (Unit {0})
  unfolding candidates sorted
  check_accounted accounted =
      let missing = select (λ c. not (contains accounted c)) candidates in
      let extra = select (λ p. not (contains candidates p)) accounted in
      reject_if (not (is_empty missing)) (unregistered (sorted missing))
      >> reject_if (not (is_empty extra)) (stale (sorted extra))

  -- `validate_repository` from the three lists on.
  unfoldable pub validate_lists : List Json → List Json → List Json → Result RegistryError Registry
  unfolding validate_entries reserve check_accounted sort_by_path
  validate_lists ws fs rs = do
    workloads ← validate_entries workload ws (record { names = []; paths = [] })
    fixtures ← validate_entries fixture fs workloads.1
    reserved ← reserve rs fixtures.1 []
    check_accounted (fixtures.1.paths ++ reserved)
    ok (record { workloads = sort_by_path workloads.0; fixtures = sort_by_path fixtures.0 })

  unfoldable pub validate_document : Dict Json → Result RegistryError Registry
  unfolding validate_lists get_list get
  validate_document d = elim (as_list (get d "workloads")) [
    | none ↦ err workloads_empty
    | some [] ↦ err workloads_empty
    | some (w ∷ ws) ↦ elim (as_list (get_list d "fixtures")) [
      | none ↦ err fixtures_not_list
      | some fs ↦ elim (as_list (get_list d "reserved_top_level_cargo_projects")) [
        | none ↦ err reserved_not_list
        | some rs ↦ validate_lists (w ∷ ws) fs rs
      ]
    ]
  ]

  unfoldable pub validate_repository : RegistryFile → Result RegistryError Registry
  unfolding load_registry validate_document
  validate_repository file = load_registry file >>= validate_document

  -- The exit status of `main`.
  unfoldable pub main : RegistryFile → ℕ
  unfolding validate_repository
  main file = elim (validate_repository file) [ err e ↦ 1 | ok r ↦ 0 ]
