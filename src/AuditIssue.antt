-- ===== src/AuditIssue.antt =====
-- .github/scripts/audit_issue.py: the one issue that a scheduled audit owns. The GitHub API is an
-- explicit list of issues; a request that fails is not modelled.
pub mod Lifecycle
use oxide_batch_workloads.Base.{
  ℕ, suc, ◌+◌, String, ◌<>◌, Bool, true, false, not, ◌&&◌, ◌||◌, ◌==◌, Option, none, some, List, [],
  ◌∷◌, ◌++◌, map, nat_eq, select, if◌then◌else◌,
}
use oxide_batch_workloads.Base.Text.{has_text}
use oxide_batch_workloads.Base.Result.{Result, ok, err, ◌>>=◌}

pub data State : Type 0 where
  opened closed : State

pub record Issue : Type 0 where
  pub number : ℕ
  pub state : State
  pub title : String
  pub body : String
  pub labels : List String
  pub is_pull_request : Bool
  pub comments : List String

-- The issues of a repository and the number of the next one.
pub record Tracker : Type 0 where
  pub issues : List Issue
  pub next : ℕ

-- `all_issues`: the pages' items without the pull requests.
unfoldable pub all_issues : Tracker → List Issue
all_issues t = select (λ (i : Issue). not i.is_pull_request) t.issues

unfoldable pub create_issue : String → String → List String → Tracker → Tracker × ℕ
create_issue title body labels t = (
  record {
    issues =
        t.issues
        ++ record {
          number = t.next;
          state = opened;
          title = title;
          body = body;
          labels = labels;
          is_pull_request = false;
          comments = [];
        }
          ∷ [];
    next = suc t.next;
  },
  t.next,
)

-- A change of the issue with a number.
unfoldable pub change : ℕ → (Issue → Issue) → Tracker → Tracker
change n f t = record t {
  issues = map (λ (i : Issue). if nat_eq i.number n then f i else i) t.issues;
}

abbrev pub add_comment : String → Issue → Issue
add_comment text i = record i { comments = i.comments ++ text ∷ [] }

abbrev pub close : Issue → Issue
close i = record i { state = closed }

-- The payload of the update of a non-clean audit; reopening a closed issue is part of it.
abbrev pub refresh : String → String → List String → Issue → Issue
refresh title body labels i = record i {
  title = title;
  body = body;
  labels = labels;
  state = opened;
}

-- The issues whose body carries the marker.
unfoldable pub owned_issues : String → Tracker → List Issue
unfolding all_issues has_text
owned_issues marker t = select (λ (i : Issue). has_text marker i.body) (all_issues t)

-- More than one owned issue is a `RuntimeError` with their numbers.
abbrev pub only_owned : List Issue → Result (List ℕ) (Option Issue)
only_owned [] = ok none
only_owned (i ∷ []) = ok (some i)
only_owned (i ∷ j ∷ is) = err (map (λ (k : Issue). k.number) (i ∷ j ∷ is))

unfoldable pub find_owned_issue : String → Tracker → Result (List ℕ) (Option Issue)
unfolding owned_issues
find_owned_issue marker t = only_owned (owned_issues marker t)

pub data Action : Type 0 where
  closed_recovered created updated : ℕ → Action
  clean : Action

pub record Audit : Type 0 where
  pub marker : String
  pub title : String
  pub labels : List String
  pub classification : String
  pub clean_classification : String
  pub body : String
  pub run_url : String

abbrev pub recovered_text : Audit → String
recovered_text a = "Audit recovered to clean. Run: " <> a.run_url

abbrev pub remains_text : Audit → String
remains_text a =
    "Audit remains non-clean with classification `" <> a.classification <> "`. Run: " <> a.run_url

abbrev pub is_open : State → Bool
is_open opened = true
is_open closed = false

-- The branch of a clean audit.
abbrev pub settle_clean : Audit → Option Issue → Tracker → Tracker × Action
settle_clean a none t = (t, clean)
settle_clean a (some i) t =
    if is_open i.state
    then (
      change i.number close (change i.number (add_comment (recovered_text a)) t),
      closed_recovered i.number,
    )
    else (t, clean)

-- The branch of any other audit.
abbrev pub settle_unclean : Audit → Option Issue → Tracker → Tracker × Action
settle_unclean a none t = let (t', n) = create_issue a.title a.body a.labels t in (t', created n)
settle_unclean a (some i) t = (
  change i.number (add_comment (remains_text a))
      (change i.number (refresh a.title a.body a.labels) t),
  updated i.number,
)

unfoldable pub reconcile_owned_issue : Audit → Tracker → Result (List ℕ) (Tracker × Action)
unfolding find_owned_issue create_issue change
reconcile_owned_issue a t = find_owned_issue a.marker t >>= λ owned. ok (
    if a.classification == a.clean_classification
    then settle_clean a owned t
    else settle_unclean a owned t)
