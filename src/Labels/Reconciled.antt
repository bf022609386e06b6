-- ===== src/Labels/Reconciled.antt =====
-- What `reconcile_labels` guarantees of the labels that it wants.
use oxide_batch_workloads.Base.{
  ◌≤◌, ◌≡◌, refl, String, Bool, true, not, ◌&&◌, ◌||◌, Option, none, some, List, [], ◌∷◌, ◌++◌,
  length, contains, contains-append, contains-select, contains-sorted, distinct, select, sorted,
  all, all_of_contains, all_by_contains, arith, Bool-cases, inl, inr, eq_iff, eq_refl,
}
use oxide_batch_workloads.Base.Result.{ok, >>=-eq-ok, ok_inj}
use oxide_batch_workloads.Labels.{
  Policy, dedupe, select_type, as_list_of, add_areas, is_type, is_structural, reconcile_labels,
}

contains-dedupe :
    (kept xs : List String) (l : String)
    → contains (dedupe kept xs) l ≡ (contains xs l && not (contains kept l))
unfolding dedupe
contains-dedupe kept [] l = refl
contains-dedupe kept (x ∷ xs) l =
    ground (arith, contains-dedupe kept xs l, contains-dedupe (x ∷ kept) xs l, eq_iff x l)

distinct-dedupe : (kept xs : List String) → distinct (dedupe kept xs) ≡ true
unfolding dedupe
distinct-dedupe kept [] = refl
distinct-dedupe kept (x ∷ xs) = ground (
  arith,
  distinct-dedupe kept xs,
  distinct-dedupe (x ∷ kept) xs,
  contains-dedupe (x ∷ kept) xs x,
  eq_refl x,
)

contains-add_areas :
    (known desired areas : List String) (l : String)
    → contains (add_areas known desired areas) l
      ≡ (contains desired l || (contains areas l && contains known l))
unfolding add_areas
contains-add_areas known desired [] l = ground arith
contains-add_areas known desired (a ∷ areas) l = ground (
  arith,
  contains-add_areas known desired areas l,
  contains-add_areas known (desired ++ a ∷ []) areas l,
  contains-append desired (a ∷ []) l,
  eq_iff a l,
)

-- The wanted labels have no repetition; they are the selected type, the labels in use that are
-- no type labels, and the inferred areas that the taxonomy knows.
pub record IsReconciled (current_labels : List String) (areas : List String) (p : Policy)
    (selected : Option String) (desired : List String) : Type 0 where
  pub no_repeat : distinct desired ≡ true
  pub members :
      (l : String)
      → contains desired l ≡ (
          contains (as_list_of selected) l
          || ((contains current_labels l && not (is_type p l))
              || (contains areas l && contains p.known l)))

module _ (current_labels : List String) (inferred : Option String) (areas : List String)
    (p : Policy) where
  abbrev pub current_types : List String
  current_types = select (is_type p) (dedupe [] current_labels)

  abbrev wanted : Option String → List String
  wanted selected = dedupe [] (
      add_areas p.known
        (as_list_of selected ++ select (λ l. not (is_type p l)) (dedupe [] current_labels))
        (sorted areas))

  wanted-IsReconciled :
      (selected : Option String) → IsReconciled current_labels areas p selected (wanted selected)
  wanted-IsReconciled selected =
      let current : List String = dedupe [] current_labels in
      let non_type : List String = select (λ l. not (is_type p l)) current in
      record {
        no_repeat =
            distinct-dedupe [] (add_areas p.known (as_list_of selected ++ non_type) (sorted areas));
        members = λ l.
            rw
              (
                contains-dedupe []
                    (add_areas p.known (as_list_of selected ++ non_type) (sorted areas)) l,
                contains-add_areas p.known (as_list_of selected ++ non_type) (sorted areas) l,
                contains-append (as_list_of selected) non_type l,
                contains-select (λ l. not (is_type p l)) current l,
                contains-dedupe [] current_labels l,
                contains-sorted areas l,
              )
              (ground arith);
      }

  -- If the labels are accepted, the choice of a type succeeds, with one type or none, and the
  -- wanted labels are exactly that type, the labels in use that are no type labels, and the known
  -- inferred areas, without repetition.
  pub reconcile_labels-IsReconciled :
      (desired : List String)
      → reconcile_labels current_labels inferred areas p ≡ ok desired
      → (selected : Option String) × (select_type current_types
            (select (is_structural p) current_types)
            inferred
          ≡ ok selected)
        × IsReconciled current_labels areas p selected desired
  unfolding reconcile_labels
  reconcile_labels-IsReconciled desired h =
      let (selected, chosen, k) =
        >>=-eq-ok (select_type current_types (select (is_structural p) current_types) inferred) _
          h in
      (selected, chosen, rw (← (ok_inj k)) (wanted-IsReconciled selected))

distinct-select :
    (f : String → Bool) (xs : List String) → distinct xs ≡ true → distinct (select f xs) ≡ true
distinct-select f [] d = refl
distinct-select f (x ∷ xs) d = ground (arith, distinct-select f xs, contains-select f xs x)

length-le-one :
    (o : Option String) (xs : List String)
    → distinct xs ≡ true
    → all (contains (as_list_of o)) xs ≡ true
    → length xs ≤ 1
length-le-one o [] d a = omega arith
length-le-one o (x ∷ []) d a = omega arith
length-le-one none (x ∷ y ∷ xs) d a = absurd (ground arith)
length-le-one (some s) (x ∷ y ∷ xs) d a =
    absurd (ground (arith, eq_iff s x, eq_iff s y, eq_iff y x))

all-select_by :
    (f g : String → Bool) (xs ys : List String)
    → ((l : String) → contains ys l ≡ true → f l ≡ true → g l ≡ true)
    → all (contains ys) xs ≡ true
    → all g (select f xs) ≡ true
all-select_by f g [] ys h a = refl
all-select_by f g (x ∷ xs) ys h a = elim (Bool-cases (f x)) [
  | inl e ↦ rw e (ground (arith, h x, all-select_by f g xs ys h))
  | inr e ↦ rw e (all-select_by f g xs ys h (ground arith))
]

-- If the labels are accepted and no inferred area is a type label, an item is left with one type label at most.
pub reconcile_labels-one_type :
    (current_labels : List String) (inferred : Option String) (areas : List String) (p : Policy)
    (desired : List String)
    → reconcile_labels current_labels inferred areas p ≡ ok desired
    → all (λ a. not (is_type p a)) areas ≡ true
    → length (select (is_type p) desired) ≤ 1
reconcile_labels-one_type current_labels inferred areas p desired h apart =
    let (selected, chosen, r) =
      reconcile_labels-IsReconciled current_labels inferred areas p desired h in
    length-le-one selected (select (is_type p) desired)
      (distinct-select (is_type p) desired r.no_repeat)
      (all-select_by (is_type p) (contains (as_list_of selected)) desired desired
        (λ l m t.
          ground (arith, r.members l, all_of_contains (λ a. not (is_type p a)) areas l apart))
        (all_by_contains (contains desired) desired (λ l m. m)))
