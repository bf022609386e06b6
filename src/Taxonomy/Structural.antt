-- ===== src/Taxonomy/Structural.antt =====
-- What the document of an accepted taxonomy says.
use oxide_batch_workloads.Base.{
  ◌≡◌, refl, ◌∙◌, sym, String, Bool, true, false, ◌&&◌, ◌||◌, ◌==◌, none, some, List, [], ◌∷◌,
  is_empty, all, any, contains, distinct, starts_with, Option-cases, Bool-cases, inl, inr, arith,
  ap,
}
use oxide_batch_workloads.Base.Dict.{Dict}
use oxide_batch_workloads.Base.Json.{Json, get, as_dict, as_list, as_str, equals_num}
use oxide_batch_workloads.Base.Text.{is_blank}
use oxide_batch_workloads.Base.Result.{
  Result, ok, err, is_ok, >>=-eq-ok, >>-eq-ok, require-eq-ok, reject_if-eq-ok, ok_inj,
}
use oxide_batch_workloads.Taxonomy.{
  TaxonomyError, bad_prefixes, duplicate_prefixes, bad_structural, duplicate_structural, texts,
  string_list, nonempty_list, singular_list, has_color, has_content, check_label, check_labels,
  label_names, check_prefixes, check_structural, check_fields, load_taxonomy,
}

-- The label is an object with a text as its name, of which this holds.
abbrev pub is_named : (String → Bool) → Json → Bool
is_named p label = elim (as_dict label) [
  | none ↦ false
  | some d ↦ elim (as_str (get d "name")) [ none ↦ false | some name ↦ p name ]
]

-- The value is a text with "type:" at its front, and is the name of a label.
abbrev pub is_type_label : List Json → Json → Bool
is_type_label labels j = elim (as_str j) [
  | none ↦ false
  | some t ↦ any (is_named (λ name. name == t)) labels && starts_with t "type:"
]

-- The value is a text that stands at the front of a label's name.
abbrev pub is_used_prefix : List Json → Json → Bool
is_used_prefix labels j = elim (as_str j) [
  | none ↦ false
  | some p ↦ any (is_named (λ name. starts_with name p)) labels
]

-- The document's lists agree: each structural type is a type label, and each prefix is in use.
pub record IsStructural (document : Json) : Type 0 where
  pub fields : Dict Json
  pub is_object : as_dict document ≡ some fields
  pub labels : List Json
  pub has_labels : as_list (get fields "labels") ≡ some labels
  pub structural : List Json
  pub has_structural : as_list (get fields "structural_types") ≡ some structural
  pub some_structural : is_empty structural ≡ false
  pub type_labels : all (is_type_label labels) structural ≡ true
  pub prefixes : List Json
  pub has_prefixes : as_list (get fields "managed_prefixes") ≡ some prefixes
  pub some_prefixes : is_empty prefixes ≡ false
  pub used : all (is_used_prefix labels) prefixes ≡ true

check_label-is_named :
    (p : String → Bool) (seen : List String) (j : Json) (name : String)
    → check_label seen j ≡ ok name
    → is_named p j ≡ p name
unfolding check_label
check_label-is_named p seen j name h = elim (Option-cases (as_dict j)) [
  | inl missing ↦ absurd (ground (arith, rw (missing, check_label) at h))
  | inr (d, found) ↦ elim (Option-cases (as_str (get d "name"))) [
    | inl missing ↦ absurd (ground (arith, rw (found, missing, check_label) at h))
    | inr (s, named) ↦
        let (solid, h1) = reject_if-eq-ok (is_blank s) _ _ (rw (found, named, check_label) at h) in
        let (new, h2) = reject_if-eq-ok (contains seen s) _ _ h1 in
        let (color, h3) = require-eq-ok (has_color (get d "color")) _ _ h2 in
        let (content, h4) = require-eq-ok (has_content (get d "description")) _ _ h3 in
        rw (found, is_named) (rw named (ap p (ok_inj h4)))
  ]
]

check_labels-any :
    (p : String → Bool) (seen : List String) (js : List Json) (names : List String)
    → check_labels seen js ≡ ok names
    → any p names ≡ (any (is_named p) js || any p seen)
unfolding check_labels
check_labels-any p seen [] names h = ap (any p) (sym (ok_inj h))
check_labels-any p seen (j ∷ js) names h =
    let (name, first, h1) = >>=-eq-ok (check_label seen j) _ h in
    ground (
      arith,
      check_labels-any p (name ∷ seen) js names h1,
      check_label-is_named p seen j name first,
    )

label_names-any :
    (value : Json) (names : List String)
    → label_names value ≡ ok names
    → (labels : List Json) × (as_list value ≡ some labels)
      × ((p : String → Bool) → any p names ≡ any (is_named p) labels)
unfolding label_names
label_names-any value names h = elim (Option-cases (as_list value)) [
  | inl missing ↦ absurd (ground (arith, rw (missing, label_names) at h))
  | inr ([], found) ↦ absurd (ground (arith, rw (found, label_names) at h))
  | inr (j ∷ js, found) ↦ (
    j ∷ js,
    found,
    λ p. ground (arith, check_labels-any p [] (j ∷ js) names (rw (found, label_names) at h)),
  )
]

-- The value is a text of which this holds.
abbrev is_text_of : (String → Bool) → Json → Bool
is_text_of q j = elim (as_str j) [ none ↦ false | some s ↦ q s ]

texts-all :
    (q : String → Bool) (js : List Json) (ss : List String)
    → texts js ≡ some ss
    → all (is_text_of q) js ≡ all q ss
unfolding texts
texts-all q [] ss h = ground arith
texts-all q (j ∷ js) ss h = elim (Option-cases (as_str j)) [
  | inl missing ↦ absurd (ground (arith, rw (missing, texts) at h))
  | inr (s, found) ↦ elim (Option-cases (texts js)) [
    | inl missing ↦ absurd (ground (arith, rw (found, missing, texts) at h))
    | inr (rest, later) ↦ ground (arith, texts-all q js rest later, rw (found, later, texts) at h)
  ]
]

texts-is_empty :
    (js : List Json) (ss : List String) → texts js ≡ some ss → is_empty js ≡ is_empty ss
unfolding texts
texts-is_empty [] ss h = ground arith
texts-is_empty (j ∷ js) ss h = elim (Option-cases (as_str j)) [
  | inl missing ↦ absurd (ground (arith, rw (missing, texts) at h))
  | inr (s, found) ↦ elim (Option-cases (texts js)) [
    | inl missing ↦ absurd (ground (arith, rw (found, missing, texts) at h))
    | inr (rest, later) ↦ ground (arith, rw (found, later, texts) at h)
  ]
]

string_list-texts :
    (value : Json) (bad repeated : TaxonomyError) (ss : List String)
    → string_list value bad repeated ≡ ok ss
    → (js : List Json) × (as_list value ≡ some js) × (texts js ≡ some ss)
string_list-texts value bad repeated ss h = elim (Option-cases (as_list value)) [
  | inl missing ↦ absurd (ground (arith, rw (missing, string_list) at h))
  | inr (js, found) ↦ elim (Option-cases (texts js)) [
    | inl missing ↦ absurd (ground (arith, rw (found, missing, string_list) at h))
    | inr (ts, are_texts) ↦ elim (Bool-cases (distinct ts)) [
      | inl apart ↦
          (js, found, are_texts ∙ ap some (ok_inj (rw (found, are_texts, apart, string_list) at h)))
      | inr repeats ↦ absurd (ground (arith, rw (found, are_texts, repeats, string_list) at h))
    ]
  ]
]

nonempty_list-all :
    (value : Json) (bad repeated : TaxonomyError) (ss : List String)
    → nonempty_list value bad repeated ≡ ok ss
    → (js : List Json) × (as_list value ≡ some js)
      × (is_empty js ≡ false)
      × ((q : String → Bool) → all (is_text_of q) js ≡ all q ss)
unfolding nonempty_list
nonempty_list-all value bad repeated ss h =
    let (listed, a, h1) = >>=-eq-ok (string_list value bad repeated) _ h in
    let (js, found, are_texts) = string_list-texts value bad repeated listed a in
    elim (Bool-cases (is_empty listed)) [
      | inl nothing ↦ absurd (ground (arith, rw nothing at h1))
      | inr some_text ↦
          let same : listed ≡ ss = ok_inj (rw some_text at h1) in
          (
            js,
            found,
            texts-is_empty js listed are_texts ∙ some_text,
            λ q. texts-all q js listed are_texts ∙ ap (all q) same,
          )
    ]

check_structural-ok :
    (seen ts : List String)
    → is_ok (check_structural seen ts) ≡ true
    → all (λ t. contains seen t && starts_with t "type:") ts ≡ true
unfolding check_structural
check_structural-ok seen [] h = ground arith
check_structural-ok seen (t ∷ ts) h = ground (arith, check_structural-ok seen ts)

check_prefixes-ok :
    (seen ps : List String)
    → is_ok (check_prefixes seen ps) ≡ true
    → all (λ p. any (λ name. starts_with name p) seen) ps ≡ true
unfolding check_prefixes
check_prefixes-ok seen [] h = ground arith
check_prefixes-ok seen (p ∷ ps) h = ground (arith, check_prefixes-ok seen ps)

contains-any : (xs : List String) (a : String) → contains xs a ≡ any (λ x. x == a) xs
contains-any [] a = refl
contains-any (x ∷ xs) a = ground (arith, contains-any xs a)

all_same : (p q : Json → Bool) (js : List Json) → ((j : Json) → p j ≡ q j) → all p js ≡ all q js
all_same p q [] h = refl
all_same p q (j ∷ js) h = ground (arith, h j, all_same p q js h)

value_of : {A : Type 0} (r : Result TaxonomyError A) → is_ok r ≡ true → (a : A) × (r ≡ ok a)
value_of (ok a) h = (a, refl)
value_of (err e) h = absurd (ground arith)

module _ (labels : List Json) (names : List String)
    (named : (p : String → Bool) → any p names ≡ any (is_named p) labels) where
  type_labels-of :
      (js : List Json) (ss : List String)
      → ((q : String → Bool) → all (is_text_of q) js ≡ all q ss)
      → is_ok (check_structural names ss) ≡ true
      → all (is_type_label labels) js ≡ true
  type_labels-of js ss same h =
      all_same (is_type_label labels)
        (is_text_of (λ t. any (is_named (λ name. name == t)) labels && starts_with t "type:")) js
        (λ j. refl)
      ∙ (same (λ t. any (is_named (λ name. name == t)) labels && starts_with t "type:")
          ∙ (all_texts ss ∙ check_structural-ok names ss h))
    where
      all_texts :
          (ss : List String)
          → all (λ t. any (is_named (λ name. name == t)) labels && starts_with t "type:") ss
            ≡ all (λ t. contains names t && starts_with t "type:") ss
      all_texts [] = refl
      all_texts (t ∷ ts) =
          ground (arith, all_texts ts, contains-any names t, named (λ name. name == t))

  used-of :
      (js : List Json) (ss : List String)
      → ((q : String → Bool) → all (is_text_of q) js ≡ all q ss)
      → is_ok (check_prefixes names ss) ≡ true
      → all (is_used_prefix labels) js ≡ true
  used-of js ss same h =
      all_same (is_used_prefix labels)
        (is_text_of (λ p. any (is_named (λ name. starts_with name p)) labels)) js (λ j. refl)
      ∙ (same (λ p. any (is_named (λ name. starts_with name p)) labels)
          ∙ (all_texts ss ∙ check_prefixes-ok names ss h))
    where
      all_texts :
          (ss : List String)
          → all (λ p. any (is_named (λ name. starts_with name p)) labels) ss
            ≡ all (λ p. any (λ name. starts_with name p) names) ss
      all_texts [] = refl
      all_texts (p ∷ ps) = ground (arith, all_texts ps, named (λ name. starts_with name p))

check_fields-IsStructural :
    (document : Json) (d : Dict Json)
    → as_dict document ≡ some d
    → is_ok (check_fields d) ≡ true
    → IsStructural document
unfolding check_fields
check_fields-IsStructural document d is_dict h =
    let (all_done, h0) = value_of (check_fields d) h in
    let (version, h1) = require-eq-ok (equals_num (get d "schema_version") 1) _ _ h0 in
    let (prefixes, ps, h2) =
      >>=-eq-ok (nonempty_list (get d "managed_prefixes") bad_prefixes duplicate_prefixes) _ h1 in
    let (singular, ss, h3) = >>=-eq-ok (singular_list (get d "singular_groups") prefixes) _ h2 in
    let (structural, ts, h4) =
      >>=-eq-ok (nonempty_list (get d "structural_types") bad_structural duplicate_structural) _
        h3 in
    let (names, ns, h5) = >>=-eq-ok (label_names (get d "labels")) _ h4 in
    let (used, defined) = >>-eq-ok (check_prefixes names prefixes) _ h5 in
    let (labels, has_labels, named) = label_names-any (get d "labels") names ns in
    let (pjs, has_prefixes, some_prefixes, same_prefixes) =
      nonempty_list-all (get d "managed_prefixes") bad_prefixes duplicate_prefixes prefixes ps in
    let (tjs, has_structural, some_structural, same_structural) =
      nonempty_list-all (get d "structural_types") bad_structural duplicate_structural structural
        ts in
    record {
      fields = d;
      is_object = is_dict;
      labels = labels;
      has_labels = has_labels;
      structural = tjs;
      has_structural = has_structural;
      some_structural = some_structural;
      type_labels =
          type_labels-of labels names named tjs structural same_structural (ap is_ok defined);
      prefixes = pjs;
      has_prefixes = has_prefixes;
      some_prefixes = some_prefixes;
      used = used-of labels names named pjs prefixes same_prefixes used;
    }

-- An accepted taxonomy is returned as it is. Its document lists labels, structural types and managed
-- prefixes; there is at least one structural type and one prefix, every structural type is the name
-- of a label and starts with "type:", and every managed prefix is the front of a label's name.
pub load_taxonomy-IsStructural :
    (document t : Json) → load_taxonomy document ≡ ok t → (t ≡ document) × IsStructural document
unfolding load_taxonomy
load_taxonomy-IsStructural document t h = elim (Option-cases (as_dict document)) [
  | inl missing ↦ absurd (ground (arith, rw (missing, load_taxonomy) at h))
  | inr (d, is_dict) ↦
      let (fine, h0) = >>-eq-ok (check_fields d) _ (rw (is_dict, load_taxonomy) at h) in
      (sym (ok_inj h0), check_fields-IsStructural document d is_dict fine)
]
