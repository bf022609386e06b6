-- ===== src/Registry/Complete.antt =====
-- What an accepted registry guarantees.
use oxide_batch_workloads.Base.{
  ◌≡◌, refl, sym, ◌∙◌, ◌≢◌, String, Bool, true, not, ◌&&◌, ◌||◌, any, select, starts_with,
  Bool-cases, some, List, [], ◌∷◌, ◌++◌, contains, distinct, disjoint, disjoint_congr,
  is_empty-select, contains_antisymm, contains-append, arith, Option-cases, inl, inr, All, ap,
}
use mathlib.Core.Path.{subst}
use oxide_batch_workloads.Base.Dict.{Dict}
use oxide_batch_workloads.Base.Json.{Json, get, as_dict, as_list, equals_num}
use oxide_batch_workloads.Base.Result.{ok, >>=-eq-ok, >>-eq-ok, ok_inj, is_ok}
use oxide_batch_workloads.Registry.{
  Kind, workload, fixture, Root, RegistryFile, value, no_file, no_json, has_manifest,
  schema_version, load_registry,
}
use oxide_batch_workloads.Registry.Entry.{Entry, Seen, validate_entry, see}
use oxide_batch_workloads.Registry.Repository.{
  insert_by_path, sort_by_path, validate_entries, reserve, candidates, check_accounted, Registry,
  is_project, validate_lists, validate_document, get_list, validate_repository,
}
use oxide_batch_workloads.Registry.Extends.{Extends, validate_entries-Extends}
use oxide_batch_workloads.Registry.Sorting.{All-sort_by_path, contains-sort_by_path, distinct-both}
use oxide_batch_workloads.Registry.Reserved.{has_path, Reserves, reserve-Reserves}
use oxide_batch_workloads.Registry.Sound.{IsSound, names_of, paths_of}

-- The top-level directories with a Cargo.toml that are not hidden.
abbrev pub cargo_projects : Root → List String
cargo_projects root =
    select (λ c. not (starts_with c ".") && (root.is_dir c && has_manifest (root.manifest c)))
      root.children

-- Every entry agrees with the repository, no name or path is used twice, and the top-level Cargo
-- projects are exactly the registered and the reserved paths.
pub record IsComplete (root : Root) (reserved : List Json) (r : Registry) : Type 0 where
  pub some_workload : r.workloads ≢ []
  pub workloads_sound : All (λ e. IsSound root e × (e.kind ≡ workload)) r.workloads
  pub fixtures_sound : All (λ e. IsSound root e × (e.kind ≡ fixture)) r.fixtures
  pub names_distinct : distinct (names_of r.workloads ++ names_of r.fixtures) ≡ true
  pub paths_distinct : distinct (paths_of r.workloads ++ paths_of r.fixtures) ≡ true
  pub reserved_paths : List String
  pub are_reserved : (c : String) → contains reserved_paths c ≡ any (has_path c) reserved
  pub reserved_distinct : distinct reserved_paths ≡ true
  pub reserved_apart : disjoint reserved_paths (paths_of r.workloads ++ paths_of r.fixtures) ≡ true
  pub accounted :
      (c : String)
      → contains (cargo_projects root) c ≡ (
          (contains (paths_of r.workloads) c || contains (paths_of r.fixtures) c)
          || any (has_path c) reserved)

All-both {ℓ κ} :
    (P : Entry → Type ℓ) (Q : Entry → Type κ) (es : List Entry)
    → All P es
    → All Q es
    → All (λ e. P e × Q e) es
All-both P Q [] a b = tt
All-both P Q (e ∷ es) (p, a) (q, b) = ((p, q), All-both P Q es a b)

check_accounted-exact :
    (root : Root) (accounted : List String)
    → is_ok (check_accounted root accounted) ≡ true
    → (c : String) → contains (cargo_projects root) c ≡ contains accounted c
unfolding check_accounted candidates is_project
check_accounted-exact root accounted h =
    contains_antisymm (cargo_projects root) accounted
      (ground (
        arith,
        is_empty-select accounted (cargo_projects root),
        is_empty-select (cargo_projects root) accounted,
      ))
      (ground (
        arith,
        is_empty-select accounted (cargo_projects root),
        is_empty-select (cargo_projects root) accounted,
      ))

insert_by_path-ne-nil : (e : Entry) (es : List Entry) → insert_by_path e es ≢ []
unfolding insert_by_path
insert_by_path-ne-nil e [] h = cc
insert_by_path-ne-nil e (f ∷ es) h = ground arith

sort_by_path-ne-nil : (es : List Entry) → es ≢ [] → sort_by_path es ≢ []
unfolding sort_by_path
sort_by_path-ne-nil [] h = h
sort_by_path-ne-nil (e ∷ es) h = insert_by_path-ne-nil e (sort_by_path es)

validate_entries-ne-nil :
    (root : Root) (kind : Kind) (j : Json) (js : List Json) (seen : Seen) (es : List Entry × Seen)
    → validate_entries root kind (j ∷ js) seen ≡ ok es
    → es.0 ≢ []
unfolding validate_entries
validate_entries-ne-nil root kind j js seen es h =
    let (e, first, h1) = >>=-eq-ok (validate_entry root kind j seen) _ h in
    let (rest, later, h2) = >>=-eq-ok (validate_entries root kind js (see e seen)) _ h1 in
    let same : e ∷ rest.0 ≡ es.0 = ap (λ p. p.0) (ok_inj h2) in λ none_left. cc

or_comm : (a b : Bool) → (a || b) ≡ (b || a)
or_comm a b = ground arith

module _ (root : Root) (ws fs : List Entry) (seen seen' : Seen) (reserved : List String)
    (x : Extends root workload (record { names = []; paths = [] }) ws seen)
    (y : Extends root fixture seen fs seen') where
  abbrev result : Registry
  result = record { workloads = sort_by_path ws; fixtures = sort_by_path fs }

  names_after : (c : String) → contains seen.names c ≡ contains (names_of ws) c
  names_after c = ground (arith, x.names_seen c)

  paths_after : (c : String) → contains seen.paths c ≡ contains (paths_of ws) c
  paths_after c = ground (arith, x.paths_seen c)

  all_paths_after :
      (c : String)
      → contains seen'.paths c
        ≡ (contains (paths_of (sort_by_path ws)) c || contains (paths_of (sort_by_path fs)) c)
  all_paths_after c =
      rw (contains-sort_by_path (λ e. e.path) ws c, contains-sort_by_path (λ e. e.path) fs c)
        (y.paths_seen c
          ∙ rw (paths_after c) (or_comm (contains (paths_of fs) c) (contains (paths_of ws) c)))

  joined_paths_after :
      (c : String)
      → contains seen'.paths c
        ≡ contains (paths_of (sort_by_path ws) ++ paths_of (sort_by_path fs)) c
  joined_paths_after c =
      all_paths_after c
      ∙ sym (contains-append (paths_of (sort_by_path ws)) (paths_of (sort_by_path fs)) c)

  IsComplete-of_Extends :
      (rs : List Json)
      → ws ≢ []
      → Reserves root seen' rs [] reserved
      → ((c : String) → contains (cargo_projects root) c ≡ contains (seen'.paths ++ reserved) c)
      → IsComplete root rs result
  IsComplete-of_Extends rs some_entry z counted = record {
    some_workload = sort_by_path-ne-nil ws some_entry;
    workloads_sound =
        All-sort_by_path (λ e. IsSound root e × (e.kind ≡ workload)) ws
          (All-both _ _ ws x.sound x.kinds);
    fixtures_sound =
        All-sort_by_path (λ e. IsSound root e × (e.kind ≡ fixture)) fs
          (All-both _ _ fs y.sound y.kinds);
    names_distinct =
        distinct-both (λ e. e.name) ws fs x.names_distinct y.names_distinct
          (sym (disjoint_congr (names_of fs) seen.names (names_of ws) names_after) ∙ y.names_new);
    paths_distinct =
        distinct-both (λ e. e.path) ws fs x.paths_distinct y.paths_distinct
          (sym (disjoint_congr (paths_of fs) seen.paths (paths_of ws) paths_after) ∙ y.paths_new);
    reserved_paths = reserved;
    are_reserved = λ c. ground (arith, z.listed c);
    reserved_distinct = z.reserved_distinct refl;
    reserved_apart =
        sym (
          disjoint_congr reserved seen'.paths
            (paths_of (sort_by_path ws) ++ paths_of (sort_by_path fs)) joined_paths_after)
        ∙ z.reserved_apart refl;
    accounted = λ c.
        counted c
        ∙ (contains-append seen'.paths reserved c ∙ ground (arith, all_paths_after c, z.listed c));
  }

validate_lists-IsComplete :
    (root : Root) (j : Json) (js fs rs : List Json) (r : Registry)
    → validate_lists root (j ∷ js) fs rs ≡ ok r
    → IsComplete root rs r
unfolding validate_lists
validate_lists-IsComplete root j js fs rs r h =
    let none_seen : Seen = record { names = []; paths = [] } in
    let (w, w_ok, h1) = >>=-eq-ok (validate_entries root workload (j ∷ js) none_seen) _ h in
    let (f, f_ok, h2) = >>=-eq-ok (validate_entries root fixture fs w.1) _ h1 in
    let (reserved, r_ok, h3) = >>=-eq-ok (reserve root rs f.1 []) _ h2 in
    let (counted, h4) = >>-eq-ok (check_accounted root (f.1.paths ++ reserved)) _ h3 in
    subst (IsComplete root rs) (ok_inj h4) (
      IsComplete-of_Extends root w.0 f.0 w.1 f.1 reserved
        (validate_entries-Extends root workload (j ∷ js) none_seen w.0 w.1 w_ok)
        (validate_entries-Extends root fixture fs w.1 f.0 f.1 f_ok) rs
        (validate_entries-ne-nil root workload j js none_seen w w_ok)
        (reserve-Reserves root f.1 rs [] reserved r_ok)
        (check_accounted-exact root (f.1.paths ++ reserved) counted))

validate_document-IsComplete :
    (root : Root) (d : Dict Json) (r : Registry)
    → validate_document root d ≡ ok r
    → (rs : List Json) × (as_list (get_list d "reserved_top_level_cargo_projects") ≡ some rs)
      × IsComplete root rs r
unfolding validate_document
validate_document-IsComplete root d r h = elim (Option-cases (as_list (get d "workloads"))) [
  | inl missing ↦ absurd (ground arith)
  | inr ([], has_ws) ↦ absurd (ground arith)
  | inr (w ∷ ws, has_ws) ↦ elim (Option-cases (as_list (get_list d "fixtures"))) [
    | inl missing ↦ absurd (ground arith)
    | inr (fs, has_fs) ↦
        elim (Option-cases (as_list (get_list d "reserved_top_level_cargo_projects"))) [
          | inl missing ↦ absurd (ground arith)
          | inr (rs, has_rs) ↦
              (rs, has_rs, validate_lists-IsComplete root w ws fs rs r (ground arith))
        ]
  ]
]

-- The registry is complete for the reserved projects that the file lists.
abbrev pub IsCompleteFor : Root → RegistryFile → Registry → Type 0
IsCompleteFor root file r =
    (j : Json) × (d : Dict Json) × (rs : List Json) × (file ≡ value j)
    × (as_dict j ≡ some d)
    × (as_list (get_list d "reserved_top_level_cargo_projects") ≡ some rs)
    × IsComplete root rs r

load_registry-value :
    (file : RegistryFile) (d : Dict Json)
    → load_registry file ≡ ok d
    → (j : Json) × (file ≡ value j) × (as_dict j ≡ some d)
unfolding load_registry
load_registry-value no_file d h = absurd (ground arith)
load_registry-value no_json d h = absurd (ground arith)
load_registry-value (value j) d h = elim (Option-cases (as_dict j)) [
  | inl missing ↦ absurd (ground (arith, rw (missing, load_registry) at h))
  | inr (e, found) ↦ elim (Bool-cases (equals_num (get e "schema_version") schema_version)) [
    | inl same ↦ (j, refl, found ∙ ap some (ok_inj (rw (found, same, load_registry) at h)))
    | inr other ↦ absurd (ground (arith, rw (found, other, load_registry) at h))
  ]
]

-- An accepted registry is complete: every entry agrees with the repository (its MSRV is the one
-- of its Cargo.toml), names and paths are used once across workloads and fixtures, and the
-- top-level Cargo projects are exactly the registered paths and those that the file lists under
-- reserved_top_level_cargo_projects.
pub validate_repository-IsComplete :
    (root : Root) (file : RegistryFile) (r : Registry)
    → validate_repository root file ≡ ok r
    → IsCompleteFor root file r
unfolding validate_repository
validate_repository-IsComplete root file r h =
    let (d, loaded, rest) = >>=-eq-ok (load_registry file) (validate_document root) h in
    let (j, is_file, is_object) = load_registry-value file d loaded in
    let (rs, has_rs, complete) = validate_document-IsComplete root d r rest in
    (j, d, rs, is_file, is_object, has_rs, complete)
