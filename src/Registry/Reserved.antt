-- ===== src/Registry/Reserved.antt =====
-- The loop over the reserved projects.
use oxide_batch_workloads.Base.{
  ◌≡◌, refl, none, some, String, Bool, ◌||◌, ◌==◌, any, true, false, List, [], ◌∷◌, all, contains,
  distinct, disjoint, arith, Option-cases, inl, inr,
}
use oxide_batch_workloads.Base.Dict.{Dict}
use oxide_batch_workloads.Base.Json.{Json, get, as_dict}
use oxide_batch_workloads.Base.Result.{ok, >>=-eq-ok, reject_if-eq-ok, require-eq-ok, ok_inj}
use oxide_batch_workloads.Codeql.Coverage.{equals_text}
use oxide_batch_workloads.Registry.{Kind, reserved_project, validate_top_level_path, Root}
use oxide_batch_workloads.Registry.Entry.{Seen}
use oxide_batch_workloads.Registry.Repository.{
  is_project, validate_reserved_fields, validate_reserved, reserve, has_reason,
}

-- The value is an object with this text as its path.
abbrev pub has_path : String → Json → Bool
has_path c j = elim (as_dict j) [ none ↦ false | some d ↦ equals_text (get d "path") c ]

-- The reserved projects are new, and none is a registered path.
pub record Reserves (root : Root) (seen : Seen) (js : List Json) (before after : List String)
    : Type 0 where
  pub listed : (c : String) → contains after c ≡ (any (has_path c) js || contains before c)
  pub reserved_apart : disjoint before seen.paths ≡ true → disjoint after seen.paths ≡ true
  pub reserved_distinct : distinct before ≡ true → distinct after ≡ true
  pub projects : all (is_project root) before ≡ true → all (is_project root) after ≡ true

validate_top_level_path-is :
    (j : Json) (kind : Kind) (p : String) → validate_top_level_path j kind ≡ ok p → j ≡ Json.str p
unfolding validate_top_level_path
validate_top_level_path-is (Json.str s) kind p h = ground arith
validate_top_level_path-is j kind p h = absurd (ground arith)

module _ (root : Root) (seen : Seen) where
  validate_reserved_fields-new :
      (d : Dict Json) (before : List String) (p : String)
      → validate_reserved_fields root d seen before ≡ ok p
      → (contains before p ≡ false)
        × (contains seen.paths p ≡ false)
        × (is_project root p ≡ true)
        × (get d "path" ≡ Json.str p)
  unfolding validate_reserved_fields
  validate_reserved_fields-new d before p h =
      let (path, pathed, h1) =
        >>=-eq-ok (validate_top_level_path (get d "path") reserved_project) _ h in
      let (reason, h2) = require-eq-ok (has_reason (get d "reason")) _ _ h1 in
      let (new, h3) = reject_if-eq-ok (contains before path) _ _ h2 in
      let (apart, h4) = reject_if-eq-ok (contains seen.paths path) _ _ h3 in
      let (project, h5) = require-eq-ok (is_project root path) _ _ h4 in
      rw (← (ok_inj h5)) (
        new,
        apart,
        project,
        validate_top_level_path-is (get d "path") reserved_project path pathed,
      )

  validate_reserved-new :
      (j : Json) (before : List String) (p : String)
      → validate_reserved root j seen before ≡ ok p
      → (contains before p ≡ false)
        × (contains seen.paths p ≡ false)
        × (is_project root p ≡ true)
        × ((c : String) → has_path c j ≡ (p == c))
  unfolding validate_reserved
  validate_reserved-new j before p h = elim (Option-cases (as_dict j)) [
    | inl missing ↦ absurd (ground arith)
    | inr (d, found) ↦
        let (new, apart, project, is_path) =
          validate_reserved_fields-new d before p (ground arith) in
        (new, apart, project, λ c. rw (found, has_path) (rw is_path refl))
  ]

  pub reserve-Reserves :
      (js : List Json) (before after : List String)
      → reserve root js seen before ≡ ok after
      → Reserves root seen js before after
  unfolding reserve
  reserve-Reserves [] before after h = rw (← (ok_inj h)) (record {
    listed = λ c. refl;
    reserved_apart = λ x. x;
    reserved_distinct = λ x. x;
    projects = λ x. x;
  })
  reserve-Reserves (j ∷ js) before after h =
      let (p, first, h1) = >>=-eq-ok (validate_reserved root j seen before) _ h in
      let (new, apart, project, is_path) = validate_reserved-new j before p first in
      let r = reserve-Reserves js (p ∷ before) after h1 in
      record {
        listed = λ c. ground (arith, r.listed c, is_path c);
        reserved_apart = λ x. r.reserved_apart (ground arith);
        reserved_distinct = λ x. r.reserved_distinct (ground arith);
        projects = λ x. r.projects (ground arith);
      }
