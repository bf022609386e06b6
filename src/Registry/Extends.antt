-- ===== src/Registry/Extends.antt =====
-- The entries that one comprehension of `validate_repository` accepts.
use oxide_batch_workloads.Base.{
  ◌≡◌, refl, String, true, ◌||◌, List, [], ◌∷◌, contains, distinct, disjoint, disjoint-cons, arith,
  All, ap,
}
use oxide_batch_workloads.Base.Json.{Json}
use oxide_batch_workloads.Base.Result.{ok, >>=-eq-ok, ok_inj}
use oxide_batch_workloads.Registry.{Kind, Root}
use oxide_batch_workloads.Registry.Entry.{Entry, Seen, validate_entry, see}
use oxide_batch_workloads.Registry.Repository.{validate_entries}
use oxide_batch_workloads.Registry.Sound.{IsSound, validate_entry-IsNew, names_of, paths_of}

-- The entries that one comprehension accepts, between the sets before and after it.
pub record Extends (root : Root) (kind : Kind) (seen : Seen) (es : List Entry) (seen' : Seen)
    : Type 0 where
  pub sound : All (IsSound root) es
  pub kinds : All (λ e. e.kind ≡ kind) es
  pub names_distinct : distinct (names_of es) ≡ true
  pub paths_distinct : distinct (paths_of es) ≡ true
  pub names_new : disjoint (names_of es) seen.names ≡ true
  pub paths_new : disjoint (paths_of es) seen.paths ≡ true
  pub names_seen :
      (w : String) → contains seen'.names w ≡ (contains (names_of es) w || contains seen.names w)
  pub paths_seen :
      (w : String) → contains seen'.paths w ≡ (contains (paths_of es) w || contains seen.paths w)

module _ (root : Root) (kind : Kind) where
  pub validate_entries-Extends :
      (js : List Json) (seen : Seen) (es : List Entry) (seen' : Seen)
      → validate_entries root kind js seen ≡ ok (es, seen')
      → Extends root kind seen es seen'
  unfolding validate_entries
  validate_entries-Extends [] seen es seen' h =
      let same : ◌≡◌ {A = List Entry × Seen} ([], seen) (es, seen') = ok_inj h in
      let e : [] ≡ es = ap (λ p. p.0) same in
      let s : seen ≡ seen' = ap (λ p. p.1) same in
      rw (← e, ← s)
        (record {
          sound = tt;
          kinds = tt;
          names_distinct = refl;
          paths_distinct = refl;
          names_new = refl;
          paths_new = refl;
          names_seen = λ w. refl;
          paths_seen = λ w. refl;
        })
  validate_entries-Extends (j ∷ js) seen es seen' h =
      let (e, first, h1) = >>=-eq-ok (validate_entry root kind j seen) _ h in
      let (rest, later, h2) = >>=-eq-ok (validate_entries root kind js (see e seen)) _ h1 in
      let n = validate_entry-IsNew root kind j seen e first in
      let x = validate_entries-Extends js (see e seen) rest.0 rest.1 later in
      let same : ◌≡◌ {A = List Entry × Seen} (e ∷ rest.0, rest.1) (es, seen') = ok_inj h2 in
      let same_es : e ∷ rest.0 ≡ es = ap (λ p. p.0) same in
      let same_seen : rest.1 ≡ seen' = ap (λ p. p.1) same in
      rw (← same_es, ← same_seen)
        (record {
          sound = (n.sound, x.sound);
          kinds = (n.of_kind, x.kinds);
          names_distinct = ground (
            arith,
            x.names_distinct,
            x.names_new,
            disjoint-cons (names_of rest.0) e.name seen.names,
          );
          paths_distinct = ground (
            arith,
            x.paths_distinct,
            x.paths_new,
            disjoint-cons (paths_of rest.0) e.path seen.paths,
          );
          names_new =
              ground
                (arith, n.new_name, x.names_new, disjoint-cons (names_of rest.0) e.name seen.names);
          paths_new =
              ground
                (arith, n.new_path, x.paths_new, disjoint-cons (paths_of rest.0) e.path seen.paths);
          names_seen = λ w. ground (arith, x.names_seen w);
          paths_seen = λ w. ground (arith, x.paths_seen w);
        })
