-- ===== src/Evidence/Validated.antt =====
-- `validate_semantic_closure`: the recorded closure against the artifacts, its digest and the
-- history. Git is a parameter: the lines of `git ls-tree` and `git rev-list`, and the SHA-256 of
-- the entries.
use oxide_batch_workloads.Base.{
  String, ◌<>◌, Bool, true, false, not, ◌&&◌, ◌==◌, Option, none, some, List, [], ◌∷◌, any, all,
  is_empty, contains, distinct, select, sorted, starts_with, if◌then◌else◌,
}
use oxide_batch_workloads.Base.Dict.{Dict, insert}
use oxide_batch_workloads.Base.Json.{Json, get, as_list}
use oxide_batch_workloads.Base.Text.{rstrip_char}
use oxide_batch_workloads.Base.Result.{Result, ok, err, ◌>>=◌, ◌>>◌, reject_if, require, traverse}
use oxide_batch_workloads.Scope.{drop_prefix}
use oxide_batch_workloads.Evidence.{
  Field, plain, EvidenceError, no_includes, duplicate_includes, no_excluded, duplicate_excluded,
  wrong_excluded, wrong_algorithm, leaked, manifest_included, wrong_digest, unrepresented,
  no_history, wrong_producer, git_failed, require_keys, require_hex, safe_path,
}
use oxide_batch_workloads.Evidence.Closure.{
  ClosureEntry, paths_of, Tree, parse_closure_entries, try_select_closure, select_closure,
}

-- A line of `git ls-tree -r -z`.
pub record TreeLine : Type 0 where
  pub mode : String
  pub kind : String
  pub oid : String
  pub path : String

-- What the script asks of Git: the tree of a revision below a path, where none is a command that
-- fails, the revisions of the history, and the digest of entries.
pub record Git : Type 0 where
  pub ls_tree : String → String → Option (List TreeLine)
  pub revisions : List String
  pub digest : List ClosureEntry → String

-- The loop of `workload_tree`.
unfoldable pub tree_loop : String → List TreeLine → Tree → Result EvidenceError Tree
unfolding drop_prefix insert
tree_loop prefix [] tree = ok tree
tree_loop prefix (l ∷ ls) tree =
    let skip = tree_loop prefix ls tree in
    let rest = tree_loop prefix ls (insert (drop_prefix prefix l.path) (l.mode, l.oid) tree) in
    if not (l.kind == "blob")
    then skip
    else if starts_with l.path prefix
    then rest
    else err (git_failed l.path)

unfoldable pub workload_tree : Git → String → String → Bool → Result EvidenceError Tree
unfolding tree_loop rstrip_char
workload_tree git revision workload_path required = elim (git.ls_tree revision workload_path) [
  | none ↦ if required then err (git_failed revision) else ok []
  | some lines ↦ tree_loop (rstrip_char b'/' workload_path <> "/") lines [] >>= λ tree.
      (if is_empty tree && required then err (git_failed revision) else ok tree)
]

abbrev pub same_entry : ClosureEntry → ClosureEntry → Bool
same_entry e f = e.path == f.path && (e.mode == f.mode && e.oid == f.oid)

-- `==` on lists of entries.
abbrev pub same_entries : List ClosureEntry → List ClosureEntry → Bool
same_entries [] [] = true
same_entries (e ∷ es) (f ∷ fs) = same_entry e f && same_entries es fs
same_entries es fs = false

-- Does the tree select exactly the entries? An empty tree is passed over.
unfoldable pub represents : List String → List ClosureEntry → Tree → Bool
unfolding try_select_closure
represents includes expected tree = elim (try_select_closure tree includes) [
  | none ↦ false
  | some entries ↦ not (is_empty tree) && same_entries entries expected
]

-- The loop over the revisions.
unfoldable pub find_revision :
    Git → String → List String → List ClosureEntry → List String → Result EvidenceError String
unfolding workload_tree represents
find_revision git workload_path includes expected [] = err unrepresented
find_revision git workload_path includes expected (revision ∷ revisions) =
    let later = find_revision git workload_path includes expected revisions in
    workload_tree git revision workload_path false >>= λ tree.
    (if represents includes expected tree then ok revision else later)

unfoldable pub find_reachable_closure_representation :
    Git → String → List String → List ClosureEntry → Result EvidenceError String
unfolding find_revision
find_reachable_closure_representation git workload_path includes expected =
    reject_if (is_empty git.revisions) no_history
    >> find_revision git workload_path includes expected git.revisions

-- The check of the producer's own tree, where its revision is available.
unfoldable pub check_producer :
    Git → String → List String → List ClosureEntry → String → Bool → Result EvidenceError (Unit {0})
unfolding workload_tree select_closure
check_producer git workload_path includes entries revision available =
    let checked = workload_tree git revision workload_path true >>= λ tree.
    select_closure tree includes >>= λ found. require (same_entries found entries) wrong_producer in
    if available then checked else ok tt

-- A non-empty array of safe paths without repetition.
unfoldable pub safe_paths :
    Json → Field → EvidenceError → EvidenceError → Result EvidenceError (List String)
unfolding safe_path
safe_paths value f empty repeated = elim (as_list value) [
  | none ↦ err empty
  | some [] ↦ err empty
  | some (j ∷ js) ↦ traverse (λ v. safe_path v f) (j ∷ js) >>= λ paths.
      (if distinct paths then ok paths else err repeated)
]

abbrev pub same_set : List String → List String → Bool
same_set xs ys = all (contains ys) xs && all (contains xs) ys

-- The part of `validate_semantic_closure` below the lists of paths: the entries, and the revision
-- that represents them.
unfoldable pub validate_entries :
    Git
    → String
    → String
    → Bool
    → Dict Json
    → List String
    → List String
    → Result EvidenceError (List ClosureEntry × String)
unfolding parse_closure_entries require_hex find_reachable_closure_representation check_producer
    sorted get
validate_entries git workload_path producer available closure includes excluded = do
  entries ← parse_closure_entries (get closure "entries") includes
  reject_if (any (contains excluded) (paths_of entries))
      (leaked (sorted (select (contains excluded) (paths_of entries))))
  reject_if (contains (paths_of entries) "validation/evidence-manifest.json") manifest_included
  expected ← require_hex (get closure "digest_sha256") 64 (plain "semantic_closure.digest_sha256")
  require (git.digest entries == expected) (wrong_digest expected (git.digest entries))
  revision ← find_reachable_closure_representation git workload_path includes entries
  check_producer git workload_path includes entries producer available
  ok (entries, revision)

abbrev pub is_algorithm : Json → Bool
is_algorithm (Json.str s) = s == "sha256-git-tree-entries-v1"
is_algorithm j = false

unfoldable pub validate_semantic_closure :
    Git
    → String
    → String
    → Bool
    → Json
    → List String
    → Result EvidenceError (List ClosureEntry × String)
unfolding require_keys safe_paths validate_entries get
validate_semantic_closure git workload_path producer available value artifact_paths = do
  closure ←
      require_keys value
        ("algorithm" ∷ "includes" ∷ "excluded_generated_paths" ∷ "entries" ∷ "digest_sha256" ∷ [])
        (plain "semantic_closure")
  require (is_algorithm (get closure "algorithm")) wrong_algorithm
  includes ←
      safe_paths (get closure "includes") (plain "semantic_closure.includes[]") no_includes
        duplicate_includes
  excluded ←
      safe_paths (get closure "excluded_generated_paths")
        (plain "semantic_closure.excluded_generated_paths[]") no_excluded duplicate_excluded
  require (same_set excluded artifact_paths) wrong_excluded
  validate_entries git workload_path producer available closure includes excluded
