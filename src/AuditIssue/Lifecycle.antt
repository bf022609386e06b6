-- ===== src/AuditIssue/Lifecycle.antt =====
-- The issue that an audit owns, before and after it.
use oxide_batch_workloads.Base.{
  ℕ, ◌≡◌, refl, sym, ◌∙◌, String, Bool, true, false, not, ◌&&◌, ◌==◌, Option, none, some, List, [],
  ◌∷◌, map, nat_eq, select, select-append, all-select, any, all, arith, leb, length, if◌then◌else◌,
  Bool-cases, inl, inr,
}
use mathlib.Core.Path.{subst}
use oxide_batch_workloads.Base.Text.{has_text}
use oxide_batch_workloads.Base.Result.{ok, ok_inj}
use oxide_batch_workloads.AuditIssue.{
  opened, Issue, Tracker, create_issue, change, add_comment, close, refresh, owned_issues,
  only_owned, find_owned_issue, Action, Audit, recovered_text, remains_text, is_open, settle_clean,
  settle_unclean, reconcile_owned_issue,
}

-- An issue, no pull request, whose body carries the marker.
abbrev pub is_owned : String → Issue → Bool
is_owned marker i = not i.is_pull_request && has_text marker i.body

select-select :
    (f g : Issue → Bool) (is : List Issue) → select g (select f is) ≡ select (λ i. f i && g i) is
select-select f g [] = refl
select-select f g (i ∷ is) = ground (arith, select-select f g is)

owned_issues_lem :
    (marker : String) (t : Tracker) → owned_issues marker t ≡ select (is_owned marker) t.issues
unfolding owned_issues
owned_issues_lem marker t =
    select-select (λ i. not i.is_pull_request) (λ i. has_text marker i.body) t.issues

abbrev has_number : ℕ → List Issue → Bool
has_number n is = any (λ (i : Issue). nat_eq i.number n) is

-- No number is used twice.
abbrev pub distinct_numbers : List Issue → Bool
distinct_numbers [] = true
distinct_numbers (i ∷ is) = not (has_number i.number is) && distinct_numbers is

abbrev at : ℕ → (Issue → Issue) → Issue → Issue
at n f i = if nat_eq i.number n then f i else i

map-at_absent :
    (n : ℕ) (f : Issue → Issue) (is : List Issue) → has_number n is ≡ false → map (at n f) is ≡ is
map-at_absent n f [] h = refl
map-at_absent n f (i ∷ is) h = ground (arith, map-at_absent n f is)

module _ (p : Issue → Bool) where
  has_number-select :
      (i : Issue) (is rest : List Issue) → select p is ≡ i ∷ rest → has_number i.number is ≡ true
  has_number-select i [] rest h = absurd (ground arith)
  has_number-select i (j ∷ is) rest h = elim (Bool-cases (p j)) [
    | inl e ↦ ground arith
    | inr e ↦ ground (arith, has_number-select i is rest)
  ]

  -- A change at the only selected issue that keeps it selected.
  select-map-at :
      (i : Issue) (f : Issue → Issue) (is : List Issue)
      → select p is ≡ i ∷ []
      → distinct_numbers is ≡ true
      → p (f i) ≡ true
      → select p (map (at i.number f) is) ≡ f i ∷ []
  select-map-at i f [] h d k = absurd (ground arith)
  select-map-at i f (j ∷ is) h d k = elim (Bool-cases (p j)) [
    | inl e ↦
        let same : j ≡ i = ground arith in
        let rest : select p is ≡ [] = ground arith in
        let away : has_number i.number is ≡ false = rw (← same) (ground arith) in
        rw (same, map-at_absent i.number f is away) (ground arith)
    | inr e ↦
        let later : select p is ≡ i ∷ [] = ground arith in
        ground (arith, has_number-select i is [] later, select-map-at i f is later)
  ]

abbrev Fits : Audit → Issue → Type 0
Fits a i = (i.state ≡ opened) × (i.title ≡ a.title) × (i.body ≡ a.body) × (i.labels ≡ a.labels)

module _ (n : ℕ) (f : Issue → Issue) (keeps : (i : Issue) → (f i).number ≡ i.number) where
  has_number-map-at : (m : ℕ) (is : List Issue) → has_number m (map (at n f) is) ≡ has_number m is
  has_number-map-at m [] = refl
  has_number-map-at m (i ∷ is) = ground (arith, keeps i, has_number-map-at m is)

  distinct_numbers-map-at :
      (is : List Issue) → distinct_numbers (map (at n f) is) ≡ distinct_numbers is
  distinct_numbers-map-at [] = refl
  distinct_numbers-map-at (i ∷ is) =
      ground (arith, keeps i, has_number-map-at i.number is, distinct_numbers-map-at is)

-- Two changes of the only owned issue, one after the other.
owned_issues-change_twice :
    (marker : String) (t : Tracker) (i : Issue) (f g : Issue → Issue)
    → ((j : Issue) → (f j).number ≡ j.number)
    → owned_issues marker t ≡ i ∷ []
    → distinct_numbers t.issues ≡ true
    → is_owned marker (f i) ≡ true
    → is_owned marker (g (f i)) ≡ true
    → owned_issues marker (change i.number g (change i.number f t)) ≡ g (f i) ∷ []
unfolding change
owned_issues-change_twice marker t i f g keeps h d kf kg =
    let t' : Tracker = change i.number f t in
    let one =
      select-map-at (is_owned marker) i f t.issues (sym (owned_issues_lem marker t) ∙ h) d kf in
    let two =
      select-map-at (is_owned marker) (f i) g t'.issues one
        (distinct_numbers-map-at i.number f keeps t.issues ∙ d) kg in
    owned_issues_lem marker (change i.number g t')
    ∙ subst (λ n. select (is_owned marker) (map (at n g) t'.issues) ≡ g (f i) ∷ []) (keeps i) two

only_owned-cases :
    (is : List Issue) (o : Option Issue)
    → only_owned is ≡ ok o
    → is ≡ (elim o [ none ↦ [] | some i ↦ i ∷ [] ])
only_owned-cases [] o h = rw (← (ok_inj h))
only_owned-cases (i ∷ []) o h = rw (← (ok_inj h))
only_owned-cases (i ∷ j ∷ is) o h = absurd (ground arith)

still_owned :
    (marker : String) (t : Tracker) (i : Issue)
    → owned_issues marker t ≡ i ∷ []
    → is_owned marker i ≡ true
still_owned marker t i h =
    let only : all (is_owned marker) (i ∷ []) ≡ true =
      subst (λ is. all (is_owned marker) is ≡ true) (sym (owned_issues_lem marker t) ∙ h)
        (all-select (is_owned marker) t.issues) in
    ground arith

-- What the clean branch leaves.
settle_clean-closed :
    (a : Audit) (t : Tracker) (o : Option Issue)
    → owned_issues a.marker t ≡ (elim o [ none ↦ [] | some i ↦ i ∷ [] ])
    → distinct_numbers t.issues ≡ true
    → all (λ (i : Issue). not (is_open i.state)) (owned_issues a.marker (settle_clean a o t).0)
      ≡ true
settle_clean-closed a t none h d = rw h
settle_clean-closed a t (some i) h d = elim (Bool-cases (is_open i.state)) [
  | inl open_before ↦ rw open_before (
      rw
        (owned_issues-change_twice a.marker t i (add_comment (recovered_text a)) close (λ j. refl) h
          d (still_owned a.marker t i h) (still_owned a.marker t i h))
        refl)
  | inr closed_before ↦ rw closed_before (rw h (rw closed_before))
]

settle_unclean-Fits :
    (a : Audit) (t : Tracker) (o : Option Issue)
    → owned_issues a.marker t ≡ (elim o [ none ↦ [] | some i ↦ i ∷ [] ])
    → distinct_numbers t.issues ≡ true
    → has_text a.marker a.body ≡ true
    → (i : Issue) × (owned_issues a.marker (settle_unclean a o t).0 ≡ i ∷ []) × Fits a i
unfolding create_issue
settle_unclean-Fits a t none h d m =
    let new : Issue = record {
      number = t.next;
      state = opened;
      title = a.title;
      body = a.body;
      labels = a.labels;
      is_pull_request = false;
      comments = [];
    } in
    let before : select (is_owned a.marker) t.issues ≡ [] = sym (owned_issues_lem a.marker t) ∙ h in
    (
      new,
      owned_issues_lem a.marker (create_issue a.title a.body a.labels t).0
          ∙ select-append (is_owned a.marker) t.issues (new ∷ [])
          ∙ rw (before, m) refl,
      (refl, refl, refl, refl),
    )
settle_unclean-Fits a t (some i) h d m = (
  add_comment (remains_text a) (refresh a.title a.body a.labels i),
  owned_issues-change_twice a.marker t i (refresh a.title a.body a.labels)
      (add_comment (remains_text a)) (λ j. refl) h d (ground (arith, still_owned a.marker t i h))
      (ground (arith, still_owned a.marker t i h)),
  (refl, refl, refl, refl),
)

only_owned-total :
    (is : List Issue) → leb (length is) 1 ≡ true → (o : Option Issue) × (only_owned is ≡ ok o)
only_owned-total [] h = (none, refl)
only_owned-total (i ∷ []) h = (some i, refl)
only_owned-total (i ∷ j ∷ is) h = absurd (ground arith)

-- An audit that is not clean, whose body carries its marker, run where at most one issue is owned
-- and no issue number is used twice, succeeds and leaves exactly one owned issue, which is open
-- and has the audit's title, body and labels.
pub reconcile_owned_issue-fits :
    (a : Audit) (t : Tracker)
    → (a.classification == a.clean_classification) ≡ false
    → has_text a.marker a.body ≡ true
    → distinct_numbers t.issues ≡ true
    → leb (length (owned_issues a.marker t)) 1 ≡ true
    → (t' : Tracker) × (action : Action) × (i : Issue) × (reconcile_owned_issue a t
        ≡ ok (t', action))
      × (owned_issues a.marker t' ≡ i ∷ [])
      × (i.state ≡ opened)
      × (i.title ≡ a.title)
      × (i.body ≡ a.body)
      × (i.labels ≡ a.labels)
unfolding reconcile_owned_issue find_owned_issue
reconcile_owned_issue-fits a t unclean marked distinct_before at_most_one =
    let (o, found) = only_owned-total (owned_issues a.marker t) at_most_one in
    let (i, owned, fit) =
      settle_unclean-Fits a t o (only_owned-cases (owned_issues a.marker t) o found) distinct_before
        marked in
    (
      (settle_unclean a o t).0,
      (settle_unclean a o t).1,
      i,
      rw (found, unclean) refl,
      owned,
      fit.0,
      fit.1,
      fit.2,
      fit.3,
    )

-- A clean audit, run where at most one issue is owned and no issue number is used twice, succeeds
-- and leaves no owned issue open.
pub reconcile_owned_issue-closed :
    (a : Audit) (t : Tracker)
    → (a.classification == a.clean_classification) ≡ true
    → distinct_numbers t.issues ≡ true
    → leb (length (owned_issues a.marker t)) 1 ≡ true
    → (t' : Tracker) × (action : Action) × (reconcile_owned_issue a t ≡ ok (t', action))
      × (all (λ (i : Issue). not (is_open i.state)) (owned_issues a.marker t') ≡ true)
unfolding reconcile_owned_issue find_owned_issue
reconcile_owned_issue-closed a t clean_now distinct_before at_most_one =
    let (o, found) = only_owned-total (owned_issues a.marker t) at_most_one in
    (
      (settle_clean a o t).0,
      (settle_clean a o t).1,
      rw (found, clean_now) refl,
      settle_clean-closed a t o (only_owned-cases (owned_issues a.marker t) o found)
          distinct_before,
    )
