-- ===== src/Evidence/Recorded.antt =====
-- The entries that `parse_closure_entries` accepts.
use oxide_batch_workloads.Base.{
  ℕ, suc, ◌≡◌, refl, sym, ◌∙◌, String, Bool, true, false, not, ◌&&◌, List, [], ◌∷◌, any, all,
  contains, distinct, sorted, arith, Option-cases, inl, inr, eq_iff,
}
use mathlib.Core.Path.{subst}
use oxide_batch_workloads.Base.Dict.{Dict}
use oxide_batch_workloads.Base.Json.{Json, get, as_list, as_str}
use oxide_batch_workloads.Base.Text.{is_lower_hex}
use oxide_batch_workloads.Base.Result.{
  ok, >>=-eq-ok, >>-eq-ok, reject_if-eq-ok, require-eq-ok, ok_inj, is_ok,
}
use oxide_batch_workloads.Discovery.Authority.{same_names}
use oxide_batch_workloads.Evidence.{
  Field, item, require_keys, require_string, require_hex, safe_path,
}
use oxide_batch_workloads.Evidence.Closure.{
  ClosureEntry, paths_of, regular_git_modes, covers, is_covered, section, closure_fields,
  closure_loop, check_selectors, check_entries, parse_closure_entries,
}

-- A regular mode and a blob identifier of 40 hexadecimal digits.
abbrev pub is_regular : ClosureEntry → Bool
is_regular e = contains regular_git_modes e.mode && is_lower_hex 40 e.oid

-- The paths are distinct and in order; each is covered, and each selector covers one.
pub record IsClosure (includes : List String) (entries : List ClosureEntry) : Type 0 where
  pub no_repeat : distinct (paths_of entries) ≡ true
  pub in_order : same_names (paths_of entries) (sorted (paths_of entries)) ≡ true
  pub covered : all (is_covered includes) (paths_of entries) ≡ true
  pub selectors_used : all (λ selector. any (covers selector) (paths_of entries)) includes ≡ true
  pub regular : all is_regular entries ≡ true

require_hex-is_hex :
    (j : Json) (digits : ℕ) (f : Field) (s : String)
    → require_hex j digits f ≡ ok s
    → is_lower_hex digits s ≡ true
unfolding require_hex
require_hex-is_hex j digits f s h = elim (Option-cases (as_str j)) [
  | inl missing ↦ absurd (ground arith)
  | inr (t, found) ↦ ground arith
]

closure_fields-ok :
    (includes seen : List String) (index : ℕ) (d : Dict Json) (e : ClosureEntry)
    → closure_fields includes seen index d ≡ ok e
    → (contains seen e.path ≡ false) × (is_covered includes e.path ≡ true) × (is_regular e ≡ true)
unfolding closure_fields
closure_fields-ok includes seen index d e h =
    let (path, is_path, h1) = >>=-eq-ok (safe_path (get d "path") _) _ h in
    let (new, h2) = reject_if-eq-ok (contains seen path) _ _ h1 in
    let (mode, is_mode, h3) = >>=-eq-ok (require_string (get d "mode") _) _ h2 in
    let (regular, h4) = require-eq-ok (contains regular_git_modes mode) _ _ h3 in
    let (oid, is_oid, h5) = >>=-eq-ok (require_hex (get d "git_blob_oid") 40 _) _ h4 in
    let (inside, h6) = require-eq-ok (is_covered includes path) _ _ h5 in
    rw (← (ok_inj h6)) (
      new,
      inside,
      ground (arith, regular, require_hex-is_hex (get d "git_blob_oid") 40 _ oid is_oid),
    )

-- What holds of the entries of a round and those after it.
record Good (includes seen : List String) (entries : List ClosureEntry) : Type 0 where
  pub distinct_paths : distinct (paths_of entries) ≡ true
  pub new_paths : all (λ p. not (contains seen p)) (paths_of entries) ≡ true
  pub covered_paths : all (is_covered includes) (paths_of entries) ≡ true
  pub regular_entries : all is_regular entries ≡ true

new-cons :
    (x : String) (seen paths : List String)
    → all (λ p. not (contains (x ∷ seen) p)) paths
      ≡ (not (contains paths x) && all (λ p. not (contains seen p)) paths)
new-cons x seen [] = refl
new-cons x seen (p ∷ paths) = ground (arith, new-cons x seen paths, eq_iff x p, eq_iff p x)

closure_loop-Good :
    (includes seen : List String) (index : ℕ) (js : List Json) (entries : List ClosureEntry)
    → closure_loop includes seen index js ≡ ok entries
    → Good includes seen entries
unfolding closure_loop
closure_loop-Good includes seen index [] entries h =
    let empty : Good includes seen [] = record {
      distinct_paths = refl;
      new_paths = refl;
      covered_paths = refl;
      regular_entries = refl;
    } in
    subst (Good includes seen) (ok_inj h) empty
closure_loop-Good includes seen index (j ∷ js) entries h =
    let (d, is_dict, h1) =
      >>=-eq-ok (require_keys j ("path" ∷ "mode" ∷ "git_blob_oid" ∷ []) (item section index "")) _
        h in
    let (e, first, h2) = >>=-eq-ok (closure_fields includes seen index d) _ h1 in
    let (rest, later, h3) = >>=-eq-ok (closure_loop includes (e.path ∷ seen) (suc index) js) _ h2 in
    let (new, inside, regular) = closure_fields-ok includes seen index d e first in
    let good = closure_loop-Good includes (e.path ∷ seen) (suc index) js rest later in
    let apart = sym (new-cons e.path seen (paths_of rest)) ∙ good.new_paths in
    let all_good : Good includes seen (e ∷ rest) = (record {
      distinct_paths = ground (arith, apart, good.distinct_paths);
      new_paths = ground (arith, apart, new);
      covered_paths = ground (arith, inside, good.covered_paths);
      regular_entries = ground (arith, regular, good.regular_entries);
    }) in
    subst (Good includes seen) (ok_inj h3) all_good

is_ok-check_selectors :
    (entries : List ClosureEntry) (selectors : List String)
    → is_ok (check_selectors entries selectors) ≡ true
    → all (λ selector. any (covers selector) (paths_of entries)) selectors ≡ true
unfolding check_selectors
is_ok-check_selectors entries [] h = refl
is_ok-check_selectors entries (s ∷ selectors) h =
    ground (arith, is_ok-check_selectors entries selectors)

-- Accepted closure entries have distinct paths in order, regular modes and blob identifiers of 40
-- hexadecimal digits; every path is covered by a selector, and every selector covers a path.
pub parse_closure_entries-IsClosure :
    (value : Json) (includes : List String) (entries : List ClosureEntry)
    → parse_closure_entries value includes ≡ ok entries
    → IsClosure includes entries
unfolding parse_closure_entries check_entries
parse_closure_entries-IsClosure value includes entries h = elim (Option-cases (as_list value)) [
  | inl missing ↦ absurd (ground arith)
  | inr ([], found) ↦ absurd (ground arith)
  | inr (j ∷ js, found) ↦
      let (es, looped, h1) =
        >>=-eq-ok (closure_loop includes [] 0 (j ∷ js)) (check_entries includes)
          (rw (found, parse_closure_entries) at h) in
      let (ordered, h2) = require-eq-ok (same_names (paths_of es) (sorted (paths_of es))) _ _ h1 in
      let (used, h3) = >>-eq-ok (check_selectors es includes) _ h2 in
      let good = closure_loop-Good includes [] 0 (j ∷ js) es looped in
      rw (← (ok_inj h3)) (record {
        no_repeat = good.distinct_paths;
        in_order = ordered;
        covered = good.covered_paths;
        selectors_used = is_ok-check_selectors es includes used;
        regular = good.regular_entries;
      })
]
