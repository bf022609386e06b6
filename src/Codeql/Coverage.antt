-- ===== src/Codeql/Coverage.antt =====
-- `coverage`: every expected source file was extracted.
use oxide_batch_workloads.Base.{
  String, Bool, false, not, ◌&&◌, ◌||◌, ◌==◌, Option, none, some, List, [], ◌∷◌, ◌++◌, is_empty,
  contains, select, sorted, starts_with, if◌then◌else◌,
}
use oxide_batch_workloads.Base.Dict.{Dict, lookup}
use oxide_batch_workloads.Base.Json.{Json, null, get, as_dict, as_list, as_str, hashable}
use oxide_batch_workloads.Base.Text.{ends_with, ends_with_any}
use oxide_batch_workloads.Base.Result.{Result, ok, err, ◌>>=◌, ◌>>◌, reject_if, require}
use oxide_batch_workloads.Codeql.{
  Language, actions, python, rust, java_kotlin, CodeqlError, no_invocations, failed_invocation,
  malformed_notifications, malformed_notification, extraction_warning, extraction_error, tool_error,
  no_location, invalid_uri, no_expected, no_actual, not_extracted, attribute_error, type_error,
}
use oxide_batch_workloads.Codeql.Rules.{extraction}

-- `j == s`, for a text `s`.
abbrev pub equals_text : Json → String → Bool
equals_text (Json.str t) s = t == s
equals_text j s = false

abbrev pub is_true : Json → Bool
is_true (Json.bool b) = b
is_true j = false

-- `d.get(k1, {}).get(k2, {}) … .get(k)`; none is an AttributeError.
unfoldable pub get_path : Dict Json → List String → String → Option Json
unfolding get lookup
get_path d [] k = some (get d k)
get_path d (step ∷ steps) k =
    let absent = get_path [] steps k in
    elim (lookup step d) [
      | none ↦ absent
      | some j ↦ elim (as_dict j) [ none ↦ none | some inner ↦ get_path inner steps k ]
    ]

-- A location's URI, if it is a text with a character.
abbrev pub uri_text : Json → Result CodeqlError String
uri_text j = elim (as_str j) [
  | none ↦ err invalid_uri
  | some s ↦ if s == "" then err invalid_uri else ok s
]

unfoldable pub location_uri : Json → Result CodeqlError String
unfolding get_path
location_uri location = elim (as_dict location) [
  | none ↦ err invalid_uri
  | some d ↦ elim (get_path d ("physicalLocation" ∷ "artifactLocation" ∷ []) "uri") [
    | none ↦ err attribute_error
    | some uri ↦ uri_text uri
  ]
]

unfoldable pub location_uris : List Json → Result CodeqlError (List String)
unfolding location_uri
location_uris [] = ok []
location_uris (l ∷ ls) = location_uri l >>= λ uri. location_uris ls >>= λ uris. ok (uri ∷ uris)

-- Does the notification have the identifier?
unfoldable pub has_id : Dict Json → String → Bool
unfolding get
has_id note id = elim (as_dict (get note "descriptor")) [
  | none ↦ false
  | some descriptor ↦ equals_text (get descriptor "id") id
]

-- The paths of one notification.
unfoldable pub note_paths : String → Json → Result CodeqlError (List String)
unfolding has_id location_uris get
note_paths id note = elim (as_dict note) [
  | none ↦ err malformed_notification
  | some d ↦
      if has_id d id
      then elim (as_list (get d "locations")) [
        | none ↦ err no_location
        | some [] ↦ err no_location
        | some (l ∷ ls) ↦ location_uris (l ∷ ls)
      ]
      else ok []
]

-- The paths as a list; the source keeps them in a set.
unfoldable pub notification_paths : List Json → String → Result CodeqlError (List String)
unfolding note_paths
notification_paths [] id = ok []
notification_paths (note ∷ notes) id =
    note_paths id note >>= λ paths. notification_paths notes id >>= λ more. ok (paths ++ more)

unfoldable pub expected_source : String → Language → Bool
unfolding ends_with
expected_source path actions =
    starts_with path ".github/" && ends_with_any path (".yml" ∷ ".yaml" ∷ [])
expected_source path python = ends_with path ".py"
expected_source path java_kotlin = ends_with path ".java"
expected_source path rust = ends_with path ".rs"

-- The notifications of one invocation.
unfoldable pub invocation_notes : Json → Result CodeqlError (List Json)
unfolding get lookup
invocation_notes invocation = elim (as_dict invocation) [
  | none ↦ err failed_invocation
  | some d ↦
      if is_true (get d "executionSuccessful")
      then elim (lookup "toolExecutionNotifications" d) [
        | none ↦ ok []
        | some current ↦ elim (as_list current) [
          | none ↦ err malformed_notifications
          | some notes ↦ ok notes
        ]
      ]
      else err failed_invocation
]

unfoldable pub collect_notes : List Json → Result CodeqlError (List Json)
unfolding invocation_notes
collect_notes [] = ok []
collect_notes (i ∷ is) =
    invocation_notes i >>= λ notes. collect_notes is >>= λ more. ok (notes ++ more)

-- `nid`: the identifier of a notification.
unfoldable pub note_id : Json → Json
unfolding get lookup
note_id note = elim (as_dict note) [
  | none ↦ null
  | some d ↦ elim (lookup "descriptor" d) [
    | none ↦ null
    | some j ↦ elim (as_dict j) [ none ↦ null | some descriptor ↦ get descriptor "id" ]
  ]
]

unfoldable pub has_error_level : Json → Bool
unfolding get
has_error_level note = elim (as_dict note) [
  | none ↦ false
  | some d ↦ equals_text (get d "level") "error"
]

abbrev pub is_warning : Option String → Json → Bool
is_warning none nid = false
is_warning (some w) nid = equals_text nid w

abbrev pub is_extraction_error : Json → Bool
is_extraction_error nid =
    equals_text nid "rust/diagnostics/extraction-errors"
    || (equals_text nid "java/diagnostics/extraction-errors"
        || equals_text nid "py/diagnostics/extraction-errors")

-- One round of the loop over the notifications.
unfoldable pub check_note : Option String → Json → Result CodeqlError (Unit {0})
unfolding note_id has_error_level
check_note warning note = do
  reject_if (has_error_level note) (tool_error (note_id note))
  reject_if (is_warning warning (note_id note)) extraction_warning
  require (hashable (note_id note)) type_error
  reject_if (is_extraction_error (note_id note)) extraction_error

unfoldable pub check_notes : Option String → List Json → Result CodeqlError (Unit {0})
unfolding check_note
check_notes warning [] = ok tt
check_notes warning (note ∷ notes) = check_note warning note >> check_notes warning notes

-- The extracted and the expected files.
unfoldable pub compare_paths :
    List String → List String → Result CodeqlError (List String × List String)
unfolding sorted
compare_paths actual expected =
    let missing = select (λ p. not (contains actual p)) expected in
    reject_if (is_empty expected) no_expected
    >> (reject_if (is_empty actual) no_actual
        >> (reject_if (not (is_empty missing)) (not_extracted (sorted missing))
            >> ok (actual, expected)))

-- `coverage` from the list of notifications on; it returns the files, not only their numbers.
unfoldable pub covered : Language → List Json → Result CodeqlError (List String × List String)
unfolding extraction check_notes notification_paths expected_source compare_paths
covered language notes = do
  check_notes (extraction language).warning notes
  actual ← notification_paths notes (extraction language).actual
  listed ← notification_paths notes (extraction language).expected
  compare_paths actual (select (λ p. expected_source p language) listed)

unfoldable pub coverage : Dict Json → Language → Result CodeqlError (List String × List String)
unfolding collect_notes covered get
coverage run language = elim (as_list (get run "invocations")) [
  | none ↦ err no_invocations
  | some [] ↦ err no_invocations
  | some (i ∷ is) ↦ collect_notes (i ∷ is) >>= covered language
]
