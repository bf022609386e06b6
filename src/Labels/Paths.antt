-- ===== src/Labels/Paths.antt =====
-- The areas that reconcile-labels.py infers from changed paths.
use oxide_batch_workloads.Base.{
  String, ◌<>◌, Bool, ◌||◌, ◌==◌, none, some, List, [], ◌∷◌, ◌++◌, starts_with, any, if◌then◌else◌,
}
use oxide_batch_workloads.Base.Text.{ends_with, has_text, lstrip_char, strip, drop_last}
use oxide_batch_workloads.Base.Result.{Result}
use oxide_batch_workloads.Labels.{Policy, LabelError, Rules, Item, strong_type, reconcile_labels}

-- `if test: areas.update(…)`; the source keeps the areas in a set, so order and repetition are lost
-- where they are sorted.
abbrev pub area_when : Bool → List String → List String
area_when test areas = if test then areas else []

module _ (lower : String → String) where
  -- One round of the loop over `workload_paths`.
  unfoldable pub workload_area : String → String × String → List String
  unfolding has_text drop_last
  workload_area path (name, prefix) =
      area_when (path == drop_last prefix || starts_with path prefix) (
        "area:workload"
        ∷ area_when (has_text "postgres" (lower name) || has_text "postgres" (lower prefix))
            ("area:postgres" ∷ []))

  unfoldable pub workload_areas : String → List (String × String) → List String
  unfolding workload_area
  workload_areas path [] = []
  workload_areas path (w ∷ ws) = workload_area path w ++ workload_areas path ws

  -- The areas of one path.
  unfoldable pub path_areas : String → Policy → List String
  unfolding workload_areas has_text ends_with
  path_areas path p =
      (if starts_with path ".github/workflows/"
        then "area:ci" ∷ "area:governance" ∷ []
        else area_when (starts_with path ".github/scripts/") ("area:ci" ∷ []))
      ++ (area_when (path == ".github/labels.json" || starts_with path ".github/ISSUE_TEMPLATE/")
            ("area:governance" ∷ [])
          ++ (area_when (path == "CONTRIBUTING.md" || path == "CODE_OF_CONDUCT.md")
                ("area:docs" ∷ "area:governance" ∷ [])
              ++ (area_when (path == "SECURITY.md") ("area:docs" ∷ "area:security" ∷ [])
                  ++ (area_when
                        (has_text "/validation/" ("/" <> path) || ends_with path "/validation")
                        ("area:evidence" ∷ [])
                      ++ workload_areas path p.workload_paths))))

  unfoldable pub infer_path_areas : List String → Policy → List String
  unfolding path_areas lstrip_char
  infer_path_areas [] p = []
  infer_path_areas (raw ∷ raws) p = path_areas (lstrip_char b'/' raw) p ++ infer_path_areas raws p

-- The labels of the area rules that match the title.
unfoldable pub rule_areas : List ((String → Bool) × String) → String → List String
rule_areas [] value = []
rule_areas ((matches, label) ∷ rules) value =
    area_when (matches value) (label ∷ []) ++ rule_areas rules value

-- `infer_title_areas`, on the lowered, stripped title.
unfoldable pub infer_title_areas : List ((String → Bool) × String) → String → List String
unfolding rule_areas has_text
infer_title_areas rules value =
    rule_areas rules value
    ++ (area_when (has_text "benchmark" value) ("area:benchmark" ∷ [])
        ++ (area_when
              (any (λ term. has_text term value)
                ("interop" ∷ "scheduler" ∷ "orchestrator" ∷ "event-driven" ∷ "control-plane" ∷ []))
              ("area:interop" ∷ [])
            ++ area_when (has_text "postgres" value || has_text "postgresql" value)
                ("area:postgres" ∷ [])))

-- `classify_item`: a pull request has paths, an issue has none.
unfoldable pub classify_item :
    (String → String) → Rules → Item → Policy → Result LabelError (List String)
unfolding infer_path_areas infer_title_areas strong_type reconcile_labels strip
classify_item lower rules item p =
    let value = lower (strip item.title) in
    let from_title = infer_title_areas rules.area_rules value in
    let areas : List String = elim item.paths [
      | none ↦ from_title
      | some paths ↦ from_title ++ infer_path_areas lower paths p
    ] in
    reconcile_labels item.labels (strong_type rules.type_rules value) areas p
