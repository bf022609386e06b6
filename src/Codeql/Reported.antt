-- ===== src/Codeql/Reported.antt =====
-- Which files the notifications of a run name.
use oxide_batch_workloads.Base.{
  ◌≡◌, refl, sym, ap, ◌∙◌, String, Bool, false, ◌&&◌, ◌==◌, Option, none, some, List, [], ◌∷◌, any,
  contains, contains-append, arith, Option-cases, Bool-cases, inl, inr,
}
use mathlib.Core.Option.{some-injective}
use oxide_batch_workloads.Base.Dict.{Dict, lookup}
use oxide_batch_workloads.Base.Json.{Json, get, as_dict, as_list, as_str}
use oxide_batch_workloads.Base.Result.{ok, >>=-eq-ok, ok_inj}
use oxide_batch_workloads.Codeql.Coverage.{
  equals_text, get_path, uri_text, location_uri, location_uris, has_id, note_paths,
  notification_paths,
}

-- The member of the innermost object.
abbrev pub member : Dict Json → List String → String → Option Json
member d [] k = some (get d k)
member d (step ∷ steps) k = elim (as_dict (get d step)) [
  | none ↦ none
  | some inner ↦ member inner steps k
]

abbrev pub is_text : String → Option Json → Bool
is_text p none = false
is_text p (some j) = elim (as_str j) [ none ↦ false | some s ↦ s == p ]

-- The location is that of the file.
abbrev pub is_location : String → Json → Bool
is_location p location = elim (as_dict location) [
  | none ↦ false
  | some d ↦ is_text p (member d ("physicalLocation" ∷ "artifactLocation" ∷ []) "uri")
]

-- The value is a list in which the file has a location.
abbrev pub has_location : String → Json → Bool
has_location p locations = elim (as_list locations) [
  | none ↦ false
  | some ls ↦ any (is_location p) ls
]

-- The notification has the identifier, and names the file.
abbrev pub names_file : String → String → Json → Bool
names_file id p note = elim (as_dict note) [
  | none ↦ false
  | some d ↦
      (elim (as_dict (get d "descriptor")) [ none ↦ false | some e ↦ equals_text (get e "id") id ])
      && has_location p (get d "locations")
]

get_path-empty : (steps : List String) (k : String) → get_path [] steps k ≡ some Json.null
unfolding get_path get lookup
get_path-empty [] k = refl
get_path-empty (step ∷ steps) k = get_path-empty steps k

member-step :
    (d inner : Dict Json) (step : String) (steps : List String) (k : String) (j : Json)
    → lookup step d ≡ some j
    → as_dict j ≡ some inner
    → member d (step ∷ steps) k ≡ member inner steps k
unfolding get
member-step d inner step steps k j found is_object = rw (found, member) (rw is_object refl)

get_path-is_text :
    (d : Dict Json) (steps : List String) (k p s : String) (v : Json)
    → get_path d steps k ≡ some v
    → as_str v ≡ some s
    → is_text p (member d steps k) ≡ (s == p)
unfolding get_path get
get_path-is_text d [] k p s v h t = rw (some-injective _ _ h) (rw (t, is_text) refl)
get_path-is_text d (step ∷ steps) k p s v h t = elim (Option-cases (lookup step d)) [
  | inl missing ↦ absurd (
      ground (
        arith,
        ap as_str (some-injective _ _ (sym (get_path-empty steps k) ∙ rw (missing, get_path) at h)),
        t,
      ))
  | inr (j, found) ↦ elim (Option-cases (as_dict j)) [
    | inl missing ↦ absurd (ground (arith, rw (found, missing, get_path) at h))
    | inr (inner, is_object) ↦
        ap (is_text p) (member-step d inner step steps k j found is_object)
        ∙ get_path-is_text inner steps k p s v (rw (found, is_object, get_path) at h) t
  ]
]

uri_text-as_str : (j : Json) (uri : String) → uri_text j ≡ ok uri → as_str j ≡ some uri
uri_text-as_str j uri h = elim (Option-cases (as_str j)) [
  | inl missing ↦ absurd (ground (arith, rw (missing, uri_text) at h))
  | inr (s, found) ↦ elim (Bool-cases (s == "")) [
    | inl empty ↦ absurd (ground (arith, rw (found, empty, uri_text) at h))
    | inr solid ↦ found ∙ ap some (ok_inj (rw (found, solid, uri_text) at h))
  ]
]

location_uri-is_location :
    (p : String) (location : Json) (uri : String)
    → location_uri location ≡ ok uri
    → is_location p location ≡ (uri == p)
unfolding location_uri
location_uri-is_location p location uri h = elim (Option-cases (as_dict location)) [
  | inl missing ↦ absurd (ground (arith, rw (missing, location_uri) at h))
  | inr (d, found) ↦
      elim (Option-cases (get_path d ("physicalLocation" ∷ "artifactLocation" ∷ []) "uri")) [
        | inl missing ↦ absurd (ground (arith, rw (found, missing, location_uri) at h))
        | inr (v, there) ↦
            rw (found, is_location)
              (get_path-is_text d ("physicalLocation" ∷ "artifactLocation" ∷ []) "uri" p uri v there
                (uri_text-as_str v uri (rw (found, there, location_uri) at h)))
      ]
]

location_uris-any :
    (p : String) (ls : List Json) (uris : List String)
    → location_uris ls ≡ ok uris
    → contains uris p ≡ any (is_location p) ls
unfolding location_uris
location_uris-any p [] uris h = ap (λ us. contains us p) (sym (ok_inj h))
location_uris-any p (l ∷ ls) uris h =
    let (uri, first, h1) = >>=-eq-ok (location_uri l) _ h in
    let (rest, later, h2) = >>=-eq-ok (location_uris ls) _ h1 in
    ground (
      arith,
      location_uri-is_location p l uri first,
      location_uris-any p ls rest later,
      ap (λ us. contains us p) (ok_inj h2),
    )

note_paths-names_file :
    (id p : String) (note : Json) (paths : List String)
    → note_paths id note ≡ ok paths
    → contains paths p ≡ names_file id p note
unfolding note_paths has_id
note_paths-names_file id p note paths h = elim (Option-cases (as_dict note)) [
  | inl missing ↦ absurd (ground (arith, rw (missing, note_paths) at h))
  | inr (d, found) ↦
      let same : names_file id p note ≡ (has_id d id && has_location p (get d "locations")) =
        rw (found, names_file) refl in
      elim (Bool-cases (has_id d id)) [
        | inl named ↦ elim (Option-cases (as_list (get d "locations"))) [
          | inl missing ↦ absurd (ground (arith, rw (found, named, missing, note_paths) at h))
          | inr ([], listed) ↦ absurd (ground (arith, rw (found, named, listed, note_paths) at h))
          | inr (l ∷ ls, listed) ↦
              location_uris-any p (l ∷ ls) paths (rw (found, named, listed, note_paths) at h)
              ∙ sym (same ∙ rw (named) (rw (listed, has_location) refl))
        ]
        | inr other ↦
            ap (λ us. contains us p) (sym (ok_inj (rw (found, other, note_paths) at h)))
            ∙ sym (same ∙ rw other refl)
      ]
]

pub notification_paths-any :
    (id p : String) (notes : List Json) (paths : List String)
    → notification_paths notes id ≡ ok paths
    → contains paths p ≡ any (names_file id p) notes
unfolding notification_paths
notification_paths-any id p [] paths h = ap (λ us. contains us p) (sym (ok_inj h))
notification_paths-any id p (note ∷ notes) paths h =
    let (here, first, h1) = >>=-eq-ok (note_paths id note) _ h in
    let (more, later, h2) = >>=-eq-ok (notification_paths notes id) _ h1 in
    ground (
      arith,
      note_paths-names_file id p note here first,
      notification_paths-any id p notes more later,
      ap (λ us. contains us p) (ok_inj h2),
      contains-append here more p,
    )
