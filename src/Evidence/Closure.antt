-- ===== src/Evidence/Closure.antt =====
-- The semantic closure: the entries that a manifest records, and those that a tree has.
use oxide_batch_workloads.Base.{
  ℕ, suc, String, ◌<>◌, Bool, ◌||◌, ◌==◌, Option, none, some, List, [], ◌∷◌, any, is_empty,
  contains, select, sorted, starts_with, text_leb, if◌then◌else◌,
}
use oxide_batch_workloads.Base.Dict.{Dict, insert, keys}
use oxide_batch_workloads.Base.Json.{Json, get, as_list}
use oxide_batch_workloads.Base.Text.{rstrip_char}
use oxide_batch_workloads.Base.Result.{Result, ok, err, ◌>>=◌, ◌>>◌, reject_if, require}
use oxide_batch_workloads.Discovery.Authority.{same_names}
use oxide_batch_workloads.Evidence.{
  item, EvidenceError, no_entries, not_sorted, duplicate_path, missing_selector, unmatched_selector,
  irregular_mode, outside_includes, require_keys, require_string, require_hex, safe_path,
}

-- A path with its Git mode and the identifier of its blob.
pub record ClosureEntry : Type 0 where
  pub path : String
  pub mode : String
  pub oid : String

abbrev pub paths_of : List ClosureEntry → List String
paths_of [] = []
paths_of (e ∷ es) = e.path ∷ paths_of es

abbrev pub regular_git_modes : List String
regular_git_modes = "100644" ∷ "100755" ∷ []

-- `path == selector or path.startswith(selector.rstrip("/") + "/")`
unfoldable pub covers : String → String → Bool
unfolding rstrip_char
covers selector path = path == selector || starts_with path (rstrip_char b'/' selector <> "/")

abbrev pub is_covered : List String → String → Bool
is_covered includes path = any (λ selector. covers selector path) includes

abbrev pub section : String
section = "semantic_closure.entries"

-- The checks on one recorded entry below those on its keys.
unfoldable pub closure_fields :
    List String → List String → ℕ → Dict Json → Result EvidenceError ClosureEntry
unfolding safe_path require_string require_hex covers get
closure_fields includes seen index d = do
  path ← safe_path (get d "path") (item section index ".path")
  reject_if (contains seen path) (duplicate_path path)
  mode ← require_string (get d "mode") (item section index ".mode")
  require (contains regular_git_modes mode) (irregular_mode (item section index ".mode"))
  oid ← require_hex (get d "git_blob_oid") 40 (item section index ".git_blob_oid")
  require (is_covered includes path) (outside_includes (item section index ".path") path)
  ok (record { path = path; mode = mode; oid = oid })

-- The loop of `parse_closure_entries`.
unfoldable pub closure_loop :
    List String → List String → ℕ → List Json → Result EvidenceError (List ClosureEntry)
unfolding require_keys closure_fields
closure_loop includes seen index [] = ok []
closure_loop includes seen index (j ∷ js) = do
  d ← require_keys j ("path" ∷ "mode" ∷ "git_blob_oid" ∷ []) (item section index "")
  entry ← closure_fields includes seen index d
  entries ← closure_loop includes (entry.path ∷ seen) (suc index) js
  ok (entry ∷ entries)

-- The loop over the selectors.
unfoldable pub check_selectors : List ClosureEntry → List String → Result EvidenceError (Unit {0})
unfolding covers
check_selectors entries [] = ok tt
check_selectors entries (selector ∷ selectors) =
    require (any (covers selector) (paths_of entries)) (missing_selector selector)
    >> check_selectors entries selectors

-- The checks of `parse_closure_entries` after its loop.
unfoldable pub check_entries :
    List String → List ClosureEntry → Result EvidenceError (List ClosureEntry)
unfolding check_selectors sorted
check_entries includes entries =
    require (same_names (paths_of entries) (sorted (paths_of entries))) not_sorted
    >> (check_selectors entries includes >> ok entries)

unfoldable pub parse_closure_entries : Json → List String → Result EvidenceError (List ClosureEntry)
unfolding closure_loop check_entries
parse_closure_entries value includes = elim (as_list value) [
  | none ↦ err no_entries
  | some [] ↦ err no_entries
  | some (j ∷ js) ↦ closure_loop includes [] 0 (j ∷ js) >>= check_entries includes
]

-- A tree of Git: the mode and the blob of each path, below the workload's directory.
abbrev pub Tree : Type 0
Tree = Dict (String × String)

-- `{path: identity for path, identity in tree.items() if …}`
unfoldable pub matched : String → Tree → Tree
unfolding covers
matched selector tree = select (λ (p : String × (String × String)). covers selector p.0) tree

-- `selected.update(matched)`
unfoldable pub update : Tree → Tree → Tree
unfolding insert
update selected [] = selected
update selected ((path, identity) ∷ more) = update (insert path identity selected) more

unfoldable pub select_loop : Tree → List String → Tree → Option Tree
unfolding matched update
select_loop tree [] selected = some selected
select_loop tree (selector ∷ selectors) selected =
    let rest = select_loop tree selectors (update selected (matched selector tree)) in
    if is_empty (matched selector tree) then none else rest

unfoldable pub insert_entry : ClosureEntry → List ClosureEntry → List ClosureEntry
insert_entry e [] = e ∷ []
insert_entry e (f ∷ fs) =
    let later = f ∷ insert_entry e fs in if text_leb e.path f.path then e ∷ f ∷ fs else later

-- `[(path, mode, oid) for path, (mode, oid) in sorted(selected.items())]`
unfoldable pub sorted_entries : Tree → List ClosureEntry
unfolding insert_entry
sorted_entries [] = []
sorted_entries ((path, (mode, oid)) ∷ tree) =
    insert_entry (record { path = path; mode = mode; oid = oid }) (sorted_entries tree)

unfoldable pub try_select_closure : Tree → List String → Option (List ClosureEntry)
unfolding select_loop sorted_entries
try_select_closure tree includes = elim (select_loop tree includes []) [
  | none ↦ none
  | some selected ↦ some (sorted_entries selected)
]

-- The first selector that matches no path; asked for where there is one only.
unfoldable pub first_unmatched : Tree → List String → String
unfolding covers
first_unmatched tree [] = ""
first_unmatched tree (selector ∷ selectors) =
    let rest = first_unmatched tree selectors in
    if any (covers selector) (keys tree) then rest else selector

unfoldable pub select_closure : Tree → List String → Result EvidenceError (List ClosureEntry)
unfolding try_select_closure first_unmatched
select_closure tree includes = elim (try_select_closure tree includes) [
  | none ↦ err (unmatched_selector (first_unmatched tree includes))
  | some entries ↦ ok entries
]
