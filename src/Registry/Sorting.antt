-- ===== src/Registry/Sorting.antt =====
-- Sorting the entries by path loses and doubles nothing.
use oxide_batch_workloads.Base.{
  ◌≡◌, refl, String, true, not, ◌&&◌, ◌||◌, ◌==◌, List, [], ◌∷◌, ◌++◌, map, contains, distinct,
  disjoint, disjoint_congr, disjoint_comm, distinct-append, arith, eq_iff, All,
}
use oxide_batch_workloads.Registry.Entry.{Entry}
use oxide_batch_workloads.Registry.Repository.{insert_by_path, sort_by_path}

-- Sorting by path keeps the entries.
module _ {ℓ} (P : Entry → Type ℓ) where
  All-insert_by_path : (e : Entry) (es : List Entry) → P e → All P es → All P (insert_by_path e es)
  unfolding insert_by_path
  All-insert_by_path e [] p a = (p, tt)
  All-insert_by_path e (f ∷ es) p (q, a) = ground (arith, All-insert_by_path e es p a)

  pub All-sort_by_path : (es : List Entry) → All P es → All P (sort_by_path es)
  unfolding sort_by_path
  All-sort_by_path [] a = tt
  All-sort_by_path (e ∷ es) (p, a) =
      All-insert_by_path e (sort_by_path es) p (All-sort_by_path es a)

module _ (key : Entry → String) where
  contains-insert_by_path :
      (e : Entry) (es : List Entry) (w : String)
      → contains (map key (insert_by_path e es)) w ≡ (key e == w || contains (map key es) w)
  unfolding insert_by_path
  contains-insert_by_path e [] w = refl
  contains-insert_by_path e (f ∷ es) w = ground (arith, contains-insert_by_path e es w)

  pub contains-sort_by_path :
      (es : List Entry) (w : String)
      → contains (map key (sort_by_path es)) w ≡ contains (map key es) w
  unfolding sort_by_path
  contains-sort_by_path [] w = refl
  contains-sort_by_path (e ∷ es) w =
      ground (arith, contains-insert_by_path e (sort_by_path es) w, contains-sort_by_path es w)

  distinct-insert_by_path :
      (e : Entry) (es : List Entry)
      → distinct (map key (insert_by_path e es))
        ≡ (not (contains (map key es) (key e)) && distinct (map key es))
  unfolding insert_by_path
  distinct-insert_by_path e [] = refl
  distinct-insert_by_path e (f ∷ es) = ground (
    arith,
    distinct-insert_by_path e es,
    contains-insert_by_path e es (key f),
    eq_iff (key e) (key f),
    eq_iff (key f) (key e),
  )

  distinct-sort_by_path :
      (es : List Entry) → distinct (map key (sort_by_path es)) ≡ distinct (map key es)
  unfolding sort_by_path
  distinct-sort_by_path [] = refl
  distinct-sort_by_path (e ∷ es) = ground (
    arith,
    distinct-insert_by_path e (sort_by_path es),
    contains-sort_by_path es (key e),
    distinct-sort_by_path es,
  )

  -- Two sorted lists together are as distinct as the lists before sorting.
  pub distinct-both :
      (es fs : List Entry)
      → distinct (map key es) ≡ true
      → distinct (map key fs) ≡ true
      → disjoint (map key fs) (map key es) ≡ true
      → distinct (map key (sort_by_path es) ++ map key (sort_by_path fs)) ≡ true
  distinct-both es fs d e j = ground (
    arith,
    distinct-append (map key (sort_by_path es)) (map key (sort_by_path fs)),
    distinct-sort_by_path es,
    distinct-sort_by_path fs,
    disjoint_congr (map key (sort_by_path es)) (map key (sort_by_path fs)) (map key fs)
        (contains-sort_by_path fs),
    disjoint_comm (map key (sort_by_path es)) (map key fs),
    disjoint_congr (map key fs) (map key (sort_by_path es)) (map key es) (contains-sort_by_path es),
  )
