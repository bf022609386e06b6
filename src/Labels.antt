-- ===== src/Labels.antt =====
-- .github/scripts/reconcile-labels.py: the labels of an issue or pull request against the
-- taxonomy. The regular expressions of the title rules are parameters.
pub mod Loading
pub mod Paths
pub mod Reconciled
use oxide_batch_workloads.Base.{
  ℕ, suc, String, Bool, true, false, not, ◌&&◌, ◌||◌, ◌==◌, Option, none, some, List, [], ◌∷◌, ◌++◌,
  map, is_empty, length, nat_eq, ltb, contains, select, sorted, starts_with, any, all,
  if◌then◌else◌,
}
use oxide_batch_workloads.Base.Dict.{Dict}
use oxide_batch_workloads.Base.Result.{Result, ok, err, ◌>>=◌}

-- What `load_policy` returns.
pub record Policy : Type 0 where
  pub known : List String
  pub structural : List String
  pub type_prefix : String
  pub workload_paths : List (String × String)

pub data LabelError : Type 0 where
  several_structural several_unmarked : List String → LabelError

-- `list(dict.fromkeys(xs))`, onto the texts already kept.
unfoldable pub dedupe : List String → List String → List String
dedupe kept [] = []
dedupe kept (x ∷ xs) =
    let rest = dedupe (x ∷ kept) xs in
    let skip = dedupe kept xs in if contains kept x then skip else x ∷ rest

abbrev pub first : List String → Option String
first [] = none
first (x ∷ xs) = some x

-- The choice of the single type label. No type label is the empty text, so the truth tests of the
-- source are tests for none.
unfoldable pub select_type :
    List String → List String → Option String → Result LabelError (Option String)
select_type type_labels [] (some inferred) = ok (some inferred)
select_type type_labels [] none =
    if ltb 1 (length type_labels)
    then err (several_unmarked type_labels)
    else ok (first type_labels)
select_type type_labels (s ∷ []) inferred = ok (some s)
select_type type_labels (s ∷ t ∷ rest) inferred = err (several_structural (s ∷ t ∷ rest))

abbrev pub as_list_of : Option String → List String
as_list_of none = []
as_list_of (some s) = s ∷ []

-- The loop over `sorted(inferred_areas)`.
unfoldable pub add_areas : List String → List String → List String → List String
add_areas known desired [] = desired
add_areas known desired (a ∷ areas) =
    add_areas known
      (if contains known a && not (contains desired a) then desired ++ a ∷ [] else desired) areas

abbrev pub is_type : Policy → String → Bool
is_type p l = starts_with l p.type_prefix

abbrev pub is_structural : Policy → String → Bool
is_structural p l = contains p.structural l

unfoldable pub reconcile_labels :
    List String → Option String → List String → Policy → Result LabelError (List String)
unfolding dedupe select_type add_areas sorted
reconcile_labels current_labels inferred_type inferred_areas p =
    let current = dedupe [] current_labels in
    let type_labels = select (is_type p) current in
    let structural = select (is_structural p) type_labels in
    let non_type = select (λ l. not (is_type p l)) current in
    select_type type_labels structural inferred_type >>= λ selected.
    ok (dedupe [] (add_areas p.known (as_list_of selected ++ non_type) (sorted inferred_areas)))

-- A rule's pattern as a test of the lowered, stripped title, with its label.
pub record Rules : Type 0 where
  pub type_rules : List ((String → Bool) × String)
  pub area_rules : List ((String → Bool) × String)

-- `strong_type_from_title`, on the lowered, stripped title.
unfoldable pub strong_type : List ((String → Bool) × String) → String → Option String
strong_type [] value = none
strong_type ((matches, label) ∷ rules) value =
    let rest = strong_type rules value in if matches value then some label else rest

-- What an item carries.
pub record Item : Type 0 where
  pub title : String
  pub labels : List String
  pub paths : Option (List String)

-- `len(desired) == len(current) and set(desired) == set(current)`
abbrev pub same_labels : List String → List String → Bool
same_labels xs ys = nat_eq (length xs) (length ys) && (all (contains ys) xs && all (contains xs) ys)

-- `apply_item`, from the labels that `classify_item` wants: the labels after it, and whether they
-- were replaced.
unfoldable pub apply_labels : Bool → List String → List String → List String × Bool
apply_labels dry_run current desired =
    if same_labels desired current
    then (current, false)
    else (if dry_run then current else desired, true)
