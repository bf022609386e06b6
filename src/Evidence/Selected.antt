-- ===== src/Evidence/Selected.antt =====
-- The entries that `try_select_closure` selects.
use oxide_batch_workloads.Base.{
  ◌≡◌, refl, ◌∙◌, String, Bool, ◌&&◌, ◌||◌, ◌==◌, some, List, [], ◌∷◌, is_empty, contains, select,
  arith, Option-cases, Bool-cases, inl, inr, eq_iff,
}
use oxide_batch_workloads.Base.Dict.{insert, has_key, has_key-insert}
use oxide_batch_workloads.Evidence.Closure.{
  ClosureEntry, paths_of, covers, is_covered, Tree, matched, update, select_loop, insert_entry,
  sorted_entries, try_select_closure,
}

has_key-select :
    (f : String → Bool) (tree : Tree) (p : String)
    → has_key (select (λ (q : String × (String × String)). f q.0) tree) p ≡ (has_key tree p && f p)
has_key-select f [] p = refl
has_key-select f ((q, i) ∷ tree) p = elim (Bool-cases (f q)) [
  | inl e ↦ rw e (ground (arith, has_key-select f tree p, eq_iff q p))
  | inr e ↦ rw e (has_key-select f tree p ∙ ground (arith, eq_iff q p))
]

has_key-matched :
    (selector : String) (tree : Tree) (p : String)
    → has_key (matched selector tree) p ≡ (has_key tree p && covers selector p)
unfolding matched
has_key-matched selector tree p = has_key-select (covers selector) tree p

has_key-update :
    (more selected : Tree) (p : String)
    → has_key (update selected more) p ≡ (has_key selected p || has_key more p)
unfolding update
has_key-update [] selected p = ground arith
has_key-update ((q, i) ∷ more) selected p =
    ground (arith, has_key-update more (insert q i selected) p, has_key-insert q p i selected)

has_key-select_loop :
    (tree : Tree) (selectors : List String) (selected t : Tree) (p : String)
    → select_loop tree selectors selected ≡ some t
    → has_key t p ≡ (has_key selected p || (has_key tree p && is_covered selectors p))
unfolding select_loop
has_key-select_loop tree [] selected t p h = ground arith
has_key-select_loop tree (s ∷ selectors) selected t p h =
    elim (Bool-cases (is_empty (matched s tree))) [
      | inl nothing ↦ absurd (ground arith)
      | inr something ↦ ground (
        arith,
        has_key-select_loop tree selectors (update selected (matched s tree)) t p,
        has_key-update (matched s tree) selected p,
        has_key-matched s tree p,
      )
    ]

contains-insert_entry :
    (e : ClosureEntry) (es : List ClosureEntry) (p : String)
    → contains (paths_of (insert_entry e es)) p ≡ (e.path == p || contains (paths_of es) p)
unfolding insert_entry
contains-insert_entry e [] p = refl
contains-insert_entry e (f ∷ es) p = ground (arith, contains-insert_entry e es p)

contains-sorted_entries :
    (tree : Tree) (p : String) → contains (paths_of (sorted_entries tree)) p ≡ has_key tree p
unfolding sorted_entries
contains-sorted_entries [] p = refl
contains-sorted_entries ((q, (mode, oid)) ∷ tree) p =
    contains-insert_entry (record { path = q; mode = mode; oid = oid }) (sorted_entries tree) p
    ∙ ground (arith, contains-sorted_entries tree p)

-- If every selector matches something, the paths selected from a tree are exactly its paths that
-- some selector covers.
pub contains-try_select_closure :
    (tree : Tree) (includes : List String) (entries : List ClosureEntry) (path : String)
    → try_select_closure tree includes ≡ some entries
    → contains (paths_of entries) path ≡ (has_key tree path && is_covered includes path)
unfolding try_select_closure
contains-try_select_closure tree includes entries path h =
    elim (Option-cases (select_loop tree includes [])) [
      | inl missing ↦ absurd (ground arith)
      | inr (selected, found) ↦
          let same : sorted_entries selected ≡ entries = ground arith in
          rw (← same) (
            contains-sorted_entries selected path
            ∙ has_key-select_loop tree includes [] selected path found)
    ]
