-- ===== src/Tests/Evidence.antt =====
-- A closure of one file and one directory, in a history of one revision.
use oxide_batch_workloads.Base.{
  ◌≡◌, refl, String, false, ◌&&◌, ◌==◌, none, some, List, [], ◌∷◌, contains, sorted, if◌then◌else◌,
}
use oxide_batch_workloads.Base.Dict.{lookup, insert, has_key}
use oxide_batch_workloads.Base.Json.{Json, obj, arr, object, array, get}
use oxide_batch_workloads.Base.Text.{is_blank, is_lower_hex, rstrip_char, split_char}
use oxide_batch_workloads.Base.Result.{ok}
use oxide_batch_workloads.Base.Text.{is_hex_color, all_hex}
use oxide_batch_workloads.Taxonomy.{
  load_taxonomy, check_fields, nonempty_list, singular_list, texts, label_names, check_labels,
  check_label, check_prefixes, check_structural,
}
use oxide_batch_workloads.Taxonomy.Structural.{IsStructural, load_taxonomy-IsStructural}
use oxide_batch_workloads.Registry.{same_keys, path_parts}
use oxide_batch_workloads.Scope.{drop_prefix}
use oxide_batch_workloads.Evidence.{
  require_keys, require_string, require_hex, safe_path, join_parts,
}
use oxide_batch_workloads.Evidence.Closure.{
  ClosureEntry, paths_of, covers, is_covered, closure_fields, closure_loop, check_selectors,
  check_entries, parse_closure_entries, Tree, matched, update, select_loop, insert_entry,
  sorted_entries, try_select_closure,
}
use oxide_batch_workloads.Evidence.Selected.{contains-try_select_closure}
use oxide_batch_workloads.Evidence.Recorded.{IsClosure, parse_closure_entries-IsClosure}
use oxide_batch_workloads.Evidence.Validated.{
  TreeLine, Git, tree_loop, workload_tree, represents, find_revision,
  find_reachable_closure_representation, check_producer, safe_paths, validate_entries,
  validate_semantic_closure,
}
use oxide_batch_workloads.Evidence.Represented.{IsValidated, validate_semantic_closure-IsValidated}

abbrev oid : String
oid = "0123456789abcdef0123456789abcdef01234567"

abbrev digest : String
digest = "0123456789abcdef0123456789abcdef0123456789abcdef0123456789abcdef"

abbrev line : String → TreeLine
line path = record { mode = "100644"; kind = "blob"; oid = oid; path = path }

abbrev git : Git
git = record {
  ls_tree = λ revision workload_path.
      if revision == "r1"
      then some (line "w/src/a.rs" ∷ line "w/Cargo.toml" ∷ line "w/README.md" ∷ [])
      else none;
  revisions = "r0" ∷ "r1" ∷ [];
  digest = λ entries. digest;
}

abbrev entry : String → ClosureEntry
entry path = record { path = path; mode = "100644"; oid = oid }

abbrev entries : List ClosureEntry
entries = entry "Cargo.toml" ∷ entry "src/a.rs" ∷ []

abbrev recorded : String → Json
recorded path = obj (
    object
      (("path", Json.str path) ∷ ("mode", Json.str "100644") ∷ ("git_blob_oid", Json.str oid) ∷ []))

abbrev recorded_entries : Json
recorded_entries = arr (array (recorded "Cargo.toml" ∷ recorded "src/a.rs" ∷ []))

abbrev includes : List String
includes = "src" ∷ "Cargo.toml" ∷ []

parsed : parse_closure_entries recorded_entries includes ≡ ok entries
unfolding parse_closure_entries closure_loop closure_fields check_selectors check_entries covers
    require_keys require_string require_hex safe_path join_parts same_keys path_parts split_char
    is_blank is_lower_hex rstrip_char get lookup sorted
parsed = refl

parse_closure_entries-IsClosure_example : IsClosure includes entries
parse_closure_entries-IsClosure_example =
    parse_closure_entries-IsClosure recorded_entries includes entries parsed

abbrev tree : Tree
tree =
    ("src/a.rs", ("100644", oid))
    ∷ ("Cargo.toml", ("100644", oid))
    ∷ ("README.md", ("100644", oid))
    ∷ []

selected : try_select_closure tree includes ≡ some entries
unfolding try_select_closure select_loop matched update sorted_entries insert_entry covers
    rstrip_char insert
selected = refl

contains-try_select_closure_example :
    contains (paths_of entries) "README.md"
    ≡ (has_key tree "README.md" && is_covered includes "README.md")
contains-try_select_closure_example =
    contains-try_select_closure tree includes entries "README.md" selected

abbrev closure : Json
closure = obj (
    object (
      ("algorithm", Json.str "sha256-git-tree-entries-v1")
      ∷ ("includes", arr (array (Json.str "src" ∷ Json.str "Cargo.toml" ∷ [])))
      ∷ ("excluded_generated_paths", arr (array (Json.str "validation/run.json" ∷ [])))
      ∷ ("entries", recorded_entries)
      ∷ ("digest_sha256", Json.str digest)
      ∷ []))

validated :
    validate_semantic_closure git "w" oid false closure ("validation/run.json" ∷ [])
    ≡ ok (entries, "r1")
unfolding validate_semantic_closure validate_entries safe_paths check_producer
    find_reachable_closure_representation find_revision represents workload_tree tree_loop
    drop_prefix parse_closure_entries closure_loop closure_fields check_selectors check_entries
    covers require_keys require_string require_hex safe_path join_parts same_keys path_parts
    split_char is_blank is_lower_hex rstrip_char get lookup sorted try_select_closure select_loop
    matched update sorted_entries insert_entry insert
validated = refl

validate_semantic_closure-IsValidated_example :
    IsValidated git "w" closure ("validation/run.json" ∷ []) entries "r1"
validate_semantic_closure-IsValidated_example =
    validate_semantic_closure-IsValidated git "w" oid false closure ("validation/run.json" ∷ [])
      entries "r1" validated

abbrev label : String → Json
label name = obj (
    object (
      ("name", Json.str name)
      ∷ ("color", Json.str "00ffAA")
      ∷ ("description", Json.str "A label.")
      ∷ []))

abbrev labels : Json
labels = obj (
    object (
      ("schema_version", Json.num 1)
      ∷ ("managed_prefixes", arr (array (Json.str "type:" ∷ [])))
      ∷ ("singular_groups", arr (array (Json.str "type:" ∷ [])))
      ∷ ("structural_types", arr (array (Json.str "type:epic" ∷ [])))
      ∷ ("labels", arr (array (label "type:epic" ∷ label "help" ∷ [])))
      ∷ []))

loaded : load_taxonomy labels ≡ ok labels
unfolding load_taxonomy check_fields nonempty_list singular_list texts label_names check_labels
    check_label check_prefixes check_structural get lookup is_blank is_hex_color all_hex
loaded = refl

load_taxonomy-IsStructural_example : (labels ≡ labels) × IsStructural labels
load_taxonomy-IsStructural_example = load_taxonomy-IsStructural labels labels loaded
