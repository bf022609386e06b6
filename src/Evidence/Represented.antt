-- ===== src/Evidence/Represented.antt =====
-- An accepted closure is a closure of the history.
use oxide_batch_workloads.Base.{
  ◌≡◌, refl, ◌∙◌, String, Bool, true, false, ◌==◌, some, List, [], ◌∷◌, any, is_empty, contains,
  arith, Bool-cases, Option-cases, inl, inr, eq_iff, eq_refl, ap,
}
use oxide_batch_workloads.Base.Dict.{Dict}
use oxide_batch_workloads.Base.Json.{Json, get, as_dict}
use oxide_batch_workloads.Base.Result.{
  ok, >>=-eq-ok, >>-eq-ok, reject_if-eq-ok, require-eq-ok, ok_inj,
}
use oxide_batch_workloads.Evidence.{
  plain, no_includes, duplicate_includes, no_excluded, duplicate_excluded, require_keys,
  require_hex,
}
use oxide_batch_workloads.Evidence.Closure.{
  ClosureEntry, paths_of, Tree, parse_closure_entries, try_select_closure,
}
use oxide_batch_workloads.Evidence.Recorded.{IsClosure, parse_closure_entries-IsClosure}
use oxide_batch_workloads.Evidence.Safe.{
  AreSafePaths, require_keys-as_dict, safe_paths-AreSafePaths,
}
use oxide_batch_workloads.Evidence.Validated.{
  Git, workload_tree, represents, same_entries, find_revision,
  find_reachable_closure_representation, check_producer, safe_paths, same_set, validate_entries,
  is_algorithm, validate_semantic_closure,
}

-- A revision of the history whose tree selects exactly the entries.
pub record IsRepresented (git : Git) (workload_path : String) (includes : List String)
    (entries : List ClosureEntry) (revision : String) : Type 0 where
  pub reachable : contains git.revisions revision ≡ true
  pub tree : Tree
  pub has_tree : workload_tree git revision workload_path false ≡ ok tree
  pub some_file : is_empty tree ≡ false
  pub selected : try_select_closure tree includes ≡ some entries

find_revision-found :
    (git : Git) (workload_path : String) (includes : List String) (entries : List ClosureEntry)
    (revisions : List String) (revision : String)
    → find_revision git workload_path includes entries revisions ≡ ok revision
    → (tree : Tree) × (contains revisions revision ≡ true)
      × (workload_tree git revision workload_path false ≡ ok tree)
      × (represents includes entries tree ≡ true)
unfolding find_revision
find_revision-found git workload_path includes entries [] revision h = absurd (ground arith)
find_revision-found git workload_path includes entries (r ∷ rs) revision h =
    let (tree, has_tree, h1) = >>=-eq-ok (workload_tree git r workload_path false) _ h in
    elim (Bool-cases (represents includes entries tree)) [
      | inl holds ↦
          let same : r ≡ revision = ok_inj (rw holds at h1) in
          rw (← same) (tree, ground (arith, eq_refl r), has_tree, holds)
      | inr fails ↦
          let (t, member, has_t, selects) =
            find_revision-found git workload_path includes entries rs revision (rw fails at h1) in
          (t, ground arith, has_t, selects)
    ]

same_entries-eq : (es fs : List ClosureEntry) → same_entries es fs ≡ true → es ≡ fs
same_entries-eq [] [] h = refl
same_entries-eq [] (f ∷ fs) h = absurd (ground arith)
same_entries-eq (e ∷ es) [] h = absurd (ground arith)
same_entries-eq (e ∷ es) (f ∷ fs) h =
    let rest : es ≡ fs = same_entries-eq es fs (ground arith) in
    let path : e.path ≡ f.path = (eq_iff e.path f.path).0 (ground arith) in
    let mode : e.mode ≡ f.mode = (eq_iff e.mode f.mode).0 (ground arith) in
    let oid : e.oid ≡ f.oid = (eq_iff e.oid f.oid).0 (ground arith) in
    let first : e ≡ f = λ i. record { path = path i; mode = mode i; oid = oid i } in
    λ i. first i ∷ rest i

represents-selected :
    (includes : List String) (entries : List ClosureEntry) (tree : Tree)
    → represents includes entries tree ≡ true
    → (is_empty tree ≡ false) × (try_select_closure tree includes ≡ some entries)
unfolding represents
represents-selected includes entries tree h =
    elim (Option-cases (try_select_closure tree includes)) [
      | inl missing ↦ absurd (ground (arith, rw (missing, represents) at h))
      | inr (chosen, found) ↦
          let both = rw (found, represents) at h in
          (ground arith, found ∙ ap some (same_entries-eq chosen entries (ground arith)))
    ]

find_reachable-IsRepresented :
    (git : Git) (workload_path : String) (includes : List String) (entries : List ClosureEntry)
    (revision : String)
    → find_reachable_closure_representation git workload_path includes entries ≡ ok revision
    → IsRepresented git workload_path includes entries revision
unfolding find_reachable_closure_representation
find_reachable-IsRepresented git workload_path includes entries revision h =
    let (some_one, h1) = reject_if-eq-ok (is_empty git.revisions) _ _ h in
    let (tree, member, has_tree, selects) =
      find_revision-found git workload_path includes entries git.revisions revision h1 in
    let (some_file, selected) = represents-selected includes entries tree selects in
    record {
      reachable = member;
      tree = tree;
      has_tree = has_tree;
      some_file = some_file;
      selected = selected;
    }

abbrev closure_keys : List String
closure_keys =
    "algorithm" ∷ "includes" ∷ "excluded_generated_paths" ∷ "entries" ∷ "digest_sha256" ∷ []

-- What an accepted closure has: the selectors of the value, and the generated paths that stay outside.
pub record IsValidated (git : Git) (workload_path : String) (value : Json)
    (artifact_paths : List String) (entries : List ClosureEntry) (revision : String) : Type 0 where
  pub closure : Dict Json
  pub is_object : as_dict value ≡ some closure
  pub includes : List String
  pub are_selectors : AreSafePaths (get closure "includes") includes
  pub excluded : List String
  pub are_excluded : AreSafePaths (get closure "excluded_generated_paths") excluded
  pub parsed : parse_closure_entries (get closure "entries") includes ≡ ok entries
  pub is_closure : IsClosure includes entries
  pub exact : same_set excluded artifact_paths ≡ true
  pub apart : any (contains excluded) (paths_of entries) ≡ false
  pub no_manifest : contains (paths_of entries) "validation/evidence-manifest.json" ≡ false
  pub represented : IsRepresented git workload_path includes entries revision

validate_entries-ok :
    (git : Git) (workload_path producer : String) (available : Bool) (closure : Dict Json)
    (includes excluded : List String) (entries : List ClosureEntry) (revision : String)
    → validate_entries git workload_path producer available closure includes excluded
      ≡ ok (entries, revision)
    → (parse_closure_entries (get closure "entries") includes ≡ ok entries)
      × IsClosure includes entries
      × (any (contains excluded) (paths_of entries) ≡ false)
      × (contains (paths_of entries) "validation/evidence-manifest.json" ≡ false)
      × IsRepresented git workload_path includes entries revision
unfolding validate_entries
validate_entries-ok git workload_path producer available closure includes excluded entries revision
      h =
    let (es, parsed, h1) = >>=-eq-ok (parse_closure_entries (get closure "entries") includes) _ h in
    let (apart, h2) = reject_if-eq-ok (any (contains excluded) (paths_of es)) _ _ h1 in
    let (no_manifest, h3) =
      reject_if-eq-ok (contains (paths_of es) "validation/evidence-manifest.json") _ _ h2 in
    let (expected, is_hex, h4) =
      >>=-eq-ok
        (require_hex (get closure "digest_sha256") 64 (plain "semantic_closure.digest_sha256")) _
        h3 in
    let (same_digest, h5) = require-eq-ok (git.digest es == expected) _ _ h4 in
    let (found, is_found, h6) =
      >>=-eq-ok (find_reachable_closure_representation git workload_path includes es) _ h5 in
    let (checked, h7) =
      >>-eq-ok (check_producer git workload_path includes es producer available) _ h6 in
    let same : (es, found) ≡ (entries, revision) = ok_inj h7 in
    let same_entries : es ≡ entries = ap (λ p. p.0) same in
    let same_revision : found ≡ revision = ap (λ p. p.1) same in
    rw (← same_entries, ← same_revision)
      (
        parsed,
        parse_closure_entries-IsClosure (get closure "entries") includes es parsed,
        apart,
        no_manifest,
        find_reachable-IsRepresented git workload_path includes es found is_found,
      )

-- If `validate_semantic_closure` accepts, its entries are a closure of the selectors in the
-- manifest, the excluded paths are exactly the retained artifacts and none is in the closure, nor
-- is the manifest, and the tree of the revision that it returns, which is a revision of the
-- history, selects exactly those entries.
pub validate_semantic_closure-IsValidated :
    (git : Git) (workload_path producer : String) (available : Bool) (value : Json)
    (artifact_paths : List String) (entries : List ClosureEntry) (revision : String)
    → validate_semantic_closure git workload_path producer available value artifact_paths
      ≡ ok (entries, revision)
    → IsValidated git workload_path value artifact_paths entries revision
unfolding validate_semantic_closure
validate_semantic_closure-IsValidated git workload_path producer available value artifact_paths
      entries revision h =
    let (closure, is_closure, h1) =
      >>=-eq-ok (require_keys value closure_keys (plain "semantic_closure")) _ h in
    let (algorithm, h2) = require-eq-ok (is_algorithm (get closure "algorithm")) _ _ h1 in
    let (includes, has_includes, h3) =
      >>=-eq-ok
        (safe_paths (get closure "includes") (plain "semantic_closure.includes[]") no_includes
          duplicate_includes)
        _ h2 in
    let (excluded, has_excluded, h4) =
      >>=-eq-ok
        (safe_paths (get closure "excluded_generated_paths")
          (plain "semantic_closure.excluded_generated_paths[]") no_excluded duplicate_excluded)
        _ h3 in
    let (exact, h5) = require-eq-ok (same_set excluded artifact_paths) _ _ h4 in
    let (parsed, closed, apart, no_manifest, represented) =
      validate_entries-ok git workload_path producer available closure includes excluded entries
        revision h5 in
    record {
      closure = closure;
      is_object =
          require_keys-as_dict value closure_keys (plain "semantic_closure") closure is_closure;
      includes = includes;
      are_selectors = safe_paths-AreSafePaths _ _ _ _ includes has_includes;
      excluded = excluded;
      are_excluded = safe_paths-AreSafePaths _ _ _ _ excluded has_excluded;
      parsed = parsed;
      is_closure = closed;
      exact = exact;
      apart = apart;
      no_manifest = no_manifest;
      represented = represented;
    }
