-- ===== src/Taxonomy.antt =====
-- .github/scripts/validate-label-taxonomy.py, `load_taxonomy`: the canonical labels.
pub mod Structural
use oxide_batch_workloads.Base.{
  String, Bool, true, false, not, ◌&&◌, ◌==◌, Option, none, some, List, [], ◌∷◌, is_empty, all, any,
  contains, distinct, starts_with, if◌then◌else◌,
}
use oxide_batch_workloads.Base.Dict.{Dict}
use oxide_batch_workloads.Base.Json.{Json, get, as_dict, as_list, as_str, equals_num}
use oxide_batch_workloads.Base.Text.{is_blank, is_hex_color}
use oxide_batch_workloads.Base.Result.{Result, ok, err, ◌>>=◌, ◌>>◌, reject_if, require}

pub data TaxonomyError : Type 0 where
  attribute_error wrong_schema_version bad_prefixes duplicate_prefixes bad_singular
        duplicate_singular :
      TaxonomyError
  bad_structural duplicate_structural no_labels not_object blank_name : TaxonomyError
  duplicate_label bad_color blank_description unused_prefix undefined_type no_type_label :
      String → TaxonomyError

-- The texts of a list of texts with a character each.
unfoldable pub texts : List Json → Option (List String)
texts [] = some []
texts (j ∷ js) =
    let rest = texts js in
    elim (as_str j) [
      | none ↦ none
      | some s ↦ if s == "" then none else (elim rest [ none ↦ none | some ss ↦ some (s ∷ ss) ])
    ]

-- A list of texts, without repetition.
abbrev pub string_list : Json → TaxonomyError → TaxonomyError → Result TaxonomyError (List String)
string_list value bad repeated = elim (as_list value) [
  | none ↦ err bad
  | some js ↦ elim (texts js) [
    | none ↦ err bad
    | some ss ↦ if distinct ss then ok ss else err repeated
  ]
]

unfoldable pub nonempty_list :
    Json → TaxonomyError → TaxonomyError → Result TaxonomyError (List String)
unfolding texts
nonempty_list value bad repeated =
    string_list value bad repeated >>= λ ss. (if is_empty ss then err bad else ok ss)

-- `isinstance(singular, list) and all(x in prefixes …)`, for prefixes that are texts.
unfoldable pub singular_list : Json → List String → Result TaxonomyError (List String)
unfolding texts
singular_list value prefixes = elim (as_list value) [
  | none ↦ err bad_singular
  | some js ↦ elim (texts js) [
    | none ↦ err bad_singular
    | some ss ↦
        if all (contains prefixes) ss
        then (if distinct ss then ok ss else err duplicate_singular)
        else err bad_singular
  ]
]

abbrev has_content : Json → Bool
has_content j = elim (as_str j) [ none ↦ false | some s ↦ not (is_blank s) ]

abbrev has_color : Json → Bool
has_color j = elim (as_str j) [ none ↦ false | some s ↦ is_hex_color s ]

-- The checks on one label; the set `seen` is a list.
unfoldable pub check_label : List String → Json → Result TaxonomyError String
unfolding get is_blank is_hex_color
check_label seen j = elim (as_dict j) [
  | none ↦ err not_object
  | some d ↦ elim (as_str (get d "name")) [
    | none ↦ err blank_name
    | some name ↦ do
      reject_if (is_blank name) blank_name
      reject_if (contains seen name) (duplicate_label name)
      require (has_color (get d "color")) (bad_color name)
      require (has_content (get d "description")) (blank_description name)
      ok name
  ]
]

unfoldable pub check_labels : List String → List Json → Result TaxonomyError (List String)
unfolding check_label
check_labels seen [] = ok seen
check_labels seen (j ∷ js) = check_label seen j >>= λ name. check_labels (name ∷ seen) js

-- The names of a non-empty list of labels.
unfoldable pub label_names : Json → Result TaxonomyError (List String)
unfolding check_labels
label_names labels = elim (as_list labels) [
  | none ↦ err no_labels
  | some [] ↦ err no_labels
  | some (j ∷ js) ↦ check_labels [] (j ∷ js)
]

unfoldable pub check_prefixes : List String → List String → Result TaxonomyError (Unit {0})
check_prefixes seen [] = ok tt
check_prefixes seen (p ∷ ps) =
    require (any (λ name. starts_with name p) seen) (unused_prefix p) >> check_prefixes seen ps

unfoldable pub check_structural : List String → List String → Result TaxonomyError (Unit {0})
check_structural seen [] = ok tt
check_structural seen (t ∷ ts) =
    require (contains seen t) (undefined_type t)
    >> (require (starts_with t "type:") (no_type_label t) >> check_structural seen ts)

-- The checks on the fields of the document.
unfoldable pub check_fields : Dict Json → Result TaxonomyError (Unit {0})
unfolding nonempty_list singular_list label_names check_prefixes check_structural get
check_fields d = do
  require (equals_num (get d "schema_version") 1) wrong_schema_version
  prefixes ← nonempty_list (get d "managed_prefixes") bad_prefixes duplicate_prefixes
  singular ← singular_list (get d "singular_groups") prefixes
  structural ← nonempty_list (get d "structural_types") bad_structural duplicate_structural
  names ← label_names (get d "labels")
  check_prefixes names prefixes
  check_structural names structural

-- The document itself, where it is accepted.
unfoldable pub load_taxonomy : Json → Result TaxonomyError Json
unfolding check_fields
load_taxonomy document = elim (as_dict document) [
  | none ↦ err attribute_error
  | some d ↦ check_fields d >> ok document
]
