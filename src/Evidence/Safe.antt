-- ===== src/Evidence/Safe.antt =====
-- What the paths of an evidence manifest are.
use oxide_batch_workloads.Base.{
  ◌≡◌, ◌∙◌, String, true, false, ◌||◌, some, List, [], ◌∷◌, contains, distinct, starts_with, arith,
  Bool-cases, Option-cases, inl, inr, ap,
}
use oxide_batch_workloads.Base.Dict.{Dict}
use oxide_batch_workloads.Base.Json.{Json, as_dict, as_list, as_str}
use oxide_batch_workloads.Base.Text.{is_blank}
use oxide_batch_workloads.Base.Result.{ok, traverse, >>=-eq-ok, ok_inj}
use oxide_batch_workloads.Registry.{same_keys, path_parts}
use oxide_batch_workloads.Evidence.{
  Field, EvidenceError, safe_path, require_keys, require_string, join_parts,
}
use oxide_batch_workloads.Evidence.Validated.{safe_paths}

-- The value is a text that is relative and does not leave the directory, and this is its path.
pub record IsSafePath (value : Json) (path : String) : Type 0 where
  pub text : String
  pub given : as_str value ≡ some text
  pub relative : starts_with text "/" ≡ false
  pub inside : contains (path_parts text) ".." ≡ false
  pub is_path : join_parts (path_parts text) ≡ path

require_string-as_str :
    (value : Json) (f : Field) (s : String) → require_string value f ≡ ok s → as_str value ≡ some s
unfolding require_string
require_string-as_str value f s h = elim (Option-cases (as_str value)) [
  | inl missing ↦ absurd (ground (arith, rw (missing, require_string) at h))
  | inr (t, found) ↦ elim (Bool-cases (is_blank t)) [
    | inl blank ↦ absurd (ground (arith, rw (found, blank, require_string) at h))
    | inr solid ↦ found ∙ ap some (ok_inj (rw (found, solid, require_string) at h))
  ]
]

pub safe_path-IsSafePath :
    (f : Field) (value : Json) (path : String) → safe_path value f ≡ ok path → IsSafePath value path
unfolding safe_path
safe_path-IsSafePath f value path h =
    let (t, is_text, h1) = >>=-eq-ok (require_string value f) _ h in
    elim (Bool-cases (starts_with t "/" || contains (path_parts t) "..")) [
      | inl unsafe ↦ absurd (ground (arith, rw unsafe at h1))
      | inr safe ↦ record {
        text = t;
        given = require_string-as_str value f t is_text;
        relative = ground arith;
        inside = ground arith;
        is_path = ok_inj (rw safe at h1);
      }
    ]

-- The values are these paths, in this order.
abbrev pub ArePaths : List Json → List String → Type 0
ArePaths [] [] = Unit
ArePaths (j ∷ js) (p ∷ ps) = IsSafePath j p × ArePaths js ps
ArePaths js ps = false ≡ true

abbrev pub AreSafePaths : Json → List String → Type 0
AreSafePaths value paths = (js : List Json) × (as_list value ≡ some js) × ArePaths js paths

traverse-ArePaths :
    (f : Field) (js : List Json) (paths : List String)
    → traverse (λ v. safe_path v f) js ≡ ok paths
    → ArePaths js paths
traverse-ArePaths f [] [] h = tt
traverse-ArePaths f [] (p ∷ ps) h = absurd (ground arith)
traverse-ArePaths f (j ∷ js) paths h =
    let (p, first, h1) = >>=-eq-ok (safe_path j f) _ h in
    let (ps, later, h2) = >>=-eq-ok (traverse (λ v. safe_path v f) js) _ h1 in
    rw (← (ok_inj h2)) (safe_path-IsSafePath f j p first, traverse-ArePaths f js ps later)

pub safe_paths-AreSafePaths :
    (value : Json) (f : Field) (empty repeated : EvidenceError) (paths : List String)
    → safe_paths value f empty repeated ≡ ok paths
    → AreSafePaths value paths
unfolding safe_paths
safe_paths-AreSafePaths value f empty repeated paths h = elim (Option-cases (as_list value)) [
  | inl missing ↦ absurd (ground (arith, rw (missing, safe_paths) at h))
  | inr ([], found) ↦ absurd (ground (arith, rw (found, safe_paths) at h))
  | inr (j ∷ js, found) ↦
      let (ps, all_safe, h1) =
        >>=-eq-ok (traverse (λ v. safe_path v f) (j ∷ js)) _ (rw (found, safe_paths) at h) in
      elim (Bool-cases (distinct ps)) [
        | inl apart ↦
            (j ∷ js, found, traverse-ArePaths f (j ∷ js) paths (all_safe ∙ rw apart at h1))
        | inr repeats ↦ absurd (ground (arith, rw repeats at h1))
      ]
]

pub require_keys-as_dict :
    (j : Json) (names : List String) (f : Field) (d : Dict Json)
    → require_keys j names f ≡ ok d
    → as_dict j ≡ some d
unfolding require_keys
require_keys-as_dict j names f d h = elim (Option-cases (as_dict j)) [
  | inl missing ↦ absurd (ground (arith, rw (missing, require_keys) at h))
  | inr (e, found) ↦ elim (Bool-cases (same_keys e names)) [
    | inl same ↦ found ∙ ap some (ok_inj (rw (found, same, require_keys) at h))
    | inr other ↦ absurd (ground (arith, rw (found, other, require_keys) at h))
  ]
]
