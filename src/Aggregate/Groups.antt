-- ===== src/Aggregate/Groups.antt =====
-- What the two dicts of `compute_verdict` hold, against plain filters of its input lists.
use oxide_batch_workloads.Base.{
  ◌≡◌, refl, sym, String, Bool, true, false, not, ◌&&◌, ◌||◌, ◌==◌, List, [], ◌∷◌, ◌++◌, all,
  select, is_empty, contains, distinct, arith, if◌then◌else◌, eq_iff, eq_refl, append_assoc,
  append-nil, All,
}
use oxide_batch_workloads.Base.Dict.{Dict, lookup, insert, has_key, has_key-insert, lookup-insert}
use oxide_batch_workloads.Aggregate.{
  ExpectedShard, ShardResult, Grouped, entries_of, group_results, required_outcome,
}
use oxide_batch_workloads.Aggregate.Loops.{fresh, indexed}

-- The results of one workload, in their order.
abbrev pub for_workload : String → List ShardResult → List ShardResult
for_workload w rs = select (λ (r : ShardResult). r.workload == w) rs

abbrev pub names : List ExpectedShard → List String
names [] = []
names (e ∷ es) = e.name ∷ names es

entries_of-insert :
    (k j : String) (es : List ShardResult) (d : Grouped)
    → entries_of (insert k es d) j ≡ (if k == j then es else entries_of d j)
unfolding entries_of
entries_of-insert k j es d = ground (arith, lookup-insert k j es d)

entries_of-group_results_onto :
    (rs : List ShardResult) (d : Grouped) (w : String)
    → entries_of (group_results rs d) w ≡ entries_of d w ++ for_workload w rs
unfolding group_results
entries_of-group_results_onto [] d w = sym (append-nil _)
entries_of-group_results_onto (r ∷ rs) d w =
    let d' : Grouped = insert r.workload (entries_of d r.workload ++ r ∷ []) d in
    ground (
      arith,
      entries_of-group_results_onto rs d' w,
      entries_of-insert r.workload w (entries_of d r.workload ++ r ∷ []) d,
      eq_iff r.workload w,
      append_assoc (entries_of d w) (r ∷ []) (for_workload w rs),
    )

has_key-group_results_onto :
    (rs : List ShardResult) (d : Grouped) (w : String)
    → has_key (group_results rs d) w ≡ (has_key d w || not (is_empty (for_workload w rs)))
unfolding group_results
has_key-group_results_onto [] d w = ground arith
has_key-group_results_onto (r ∷ rs) d w =
    let d' : Grouped = insert r.workload (entries_of d r.workload ++ r ∷ []) d in
    ground (
      arith,
      has_key-group_results_onto rs d' w,
      has_key-insert r.workload w (entries_of d r.workload ++ r ∷ []) d,
    )

pub entries_of-group_results :
    (rs : List ShardResult) (w : String) → entries_of (group_results rs []) w ≡ for_workload w rs
unfolding entries_of lookup
entries_of-group_results rs w = entries_of-group_results_onto rs [] w

pub has_key-group_results :
    (rs : List ShardResult) (w : String)
    → has_key (group_results rs []) w ≡ not (is_empty (for_workload w rs))
has_key-group_results rs w = has_key-group_results_onto rs [] w

has_key-indexed_onto :
    (es : List ExpectedShard) (d : Dict ExpectedShard) (w : String)
    → has_key (indexed es d) w ≡ (has_key d w || contains (names es) w)
has_key-indexed_onto [] d w = ground arith
has_key-indexed_onto (e ∷ es) d w =
    ground (arith, has_key-indexed_onto es (insert e.name e d) w, has_key-insert e.name w e d)

pub has_key-indexed :
    (es : List ExpectedShard) (w : String) → has_key (indexed es []) w ≡ contains (names es) w
has_key-indexed es w = has_key-indexed_onto es [] w

abbrev apart : List ExpectedShard → Dict ExpectedShard → Bool
apart es d = all (λ (e : ExpectedShard). not (has_key d e.name)) es

apart-insert :
    (e : ExpectedShard) (es : List ExpectedShard) (d : Dict ExpectedShard)
    → apart es (insert e.name e d) ≡ (not (contains (names es) e.name) && apart es d)
apart-insert e [] d = refl
apart-insert e (f ∷ es) d = ground (
  arith,
  apart-insert e es d,
  has_key-insert e.name f.name e d,
  eq_iff e.name f.name,
  eq_iff f.name e.name,
)

fresh-distinct_onto :
    (es : List ExpectedShard) (d : Dict ExpectedShard)
    → fresh es d ≡ (distinct (names es) && apart es d)
fresh-distinct_onto [] d = refl
fresh-distinct_onto (e ∷ es) d =
    ground (arith, fresh-distinct_onto es (insert e.name e d), apart-insert e es d)

apart-nil : (es : List ExpectedShard) → apart es [] ≡ true
apart-nil [] = refl
apart-nil (e ∷ es) = apart-nil es

pub fresh-distinct : (es : List ExpectedShard) → fresh es [] ≡ distinct (names es)
fresh-distinct es = ground (arith, fresh-distinct_onto es [], apart-nil es)

lookup-indexed_of_absent :
    (es : List ExpectedShard) (d : Dict ExpectedShard) (w : String)
    → contains (names es) w ≡ false
    → lookup w (indexed es d) ≡ lookup w d
lookup-indexed_of_absent [] d w h = refl
lookup-indexed_of_absent (e ∷ es) d w h =
    ground (arith, lookup-indexed_of_absent es (insert e.name e d) w, lookup-insert e.name w e d)

required_outcome-indexed_onto :
    (es : List ExpectedShard) (d : Dict ExpectedShard)
    → distinct (names es) ≡ true
    → All (λ e. required_outcome (indexed es d) e.name ≡ e.expected_outcome) es
unfolding required_outcome
required_outcome-indexed_onto [] d h = tt
required_outcome-indexed_onto (e ∷ es) d h = (
  ground (
    arith,
    lookup-indexed_of_absent es (insert e.name e d) e.name,
    lookup-insert e.name e.name e d,
    eq_refl e.name,
  ),
  required_outcome-indexed_onto es (insert e.name e d) (ground arith),
)

-- Each expected workload is asked for the outcome of its own entry.
pub required_outcome-indexed :
    (es : List ExpectedShard)
    → distinct (names es) ≡ true
    → All (λ e. required_outcome (indexed es []) e.name ≡ e.expected_outcome) es
required_outcome-indexed es h = required_outcome-indexed_onto es [] h
