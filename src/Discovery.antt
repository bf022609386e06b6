-- ===== src/Discovery.antt =====
-- The three projections of the validated registry: .github/scripts/discover-workloads.py,
-- discover-msrv-workloads.py and discover-supply-chain-workloads.py.
pub mod Accepted
pub mod Authority
use oxide_batch_workloads.Base.{String, Bool, Option, none, some, List, [], ◌∷◌, ◌++◌, map, select}
use oxide_batch_workloads.Base.Dict.{Dict}
use oxide_batch_workloads.Base.Json.{Json, obj, object, arr, array}
use oxide_batch_workloads.Registry.{Kind, workload, fixture, reserved_project}
use oxide_batch_workloads.Registry.Msrv.{Msrv}
use oxide_batch_workloads.Registry.Entry.{Entry}
use oxide_batch_workloads.Registry.Repository.{Registry}

abbrev pub text_or_null : Option String → Json
text_or_null none = Json.null
text_or_null (some s) = Json.str s

-- The dict that `validate_msrv` returns.
abbrev pub msrv_json : Msrv → Json
msrv_json m = obj (
    object (
      ("declared", Json.bool m.declared)
      ∷ ("version", text_or_null m.version)
      ∷ ("policy_reason", text_or_null m.policy_reason)
      ∷ []))

abbrev pub kind_text : Kind → String
kind_text workload = "workload"
kind_text fixture = "fixture"
kind_text reserved_project = "reserved Cargo project"

-- The dict that `validate_entry` returns.
abbrev pub entry_json : Entry → Json
entry_json e = obj (
    object (
      ("kind", Json.str (kind_text e.kind))
      ∷ ("name", Json.str e.name)
      ∷ ("path", Json.str e.path)
      ∷ ("msrv", msrv_json e.msrv)
      ∷ []))

abbrev pub include_json : List Entry → Json
include_json es = obj (object (("include", arr (array (map entry_json es))) ∷ []))

-- `discover` of discover-workloads.py.
unfoldable pub discover : Registry → Json
discover r = include_json (r.workloads ++ r.fixtures)

-- `discover` of discover-msrv-workloads.py.
unfoldable pub discover_msrv : Registry → Json
discover_msrv r = include_json (select (λ (e : Entry). e.msrv.declared) (r.workloads ++ r.fixtures))

-- `discover` of discover-supply-chain-workloads.py.
unfoldable pub discover_supply_chain : Registry → Json
discover_supply_chain r = include_json r.workloads
