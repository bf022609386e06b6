-- ===== src/Base/SameJson.antt =====
-- Python's `==` on parsed JSON: True is 1, and the order of an object's fields does not count.
use Prim.Native.String.{String}
use mathlib.Core.Bool.{Bool, true, false, ◌&&◌}
use mathlib.Core.Option.{Option, none, some}
use text.Mathlib.Text.{◌==◌}
use oxide_batch_workloads.Base.Tests.{nat_eq, if◌then◌else◌}
use oxide_batch_workloads.Base.Lists.{length}
use oxide_batch_workloads.Base.Json.{
  Json, null, bool, num, whole, number, str, arr, obj, Items, nil, cons, Fields, end, field, fields,
  equals_num,
}

unfoldable pub find_field : String → Fields → Option Json
find_field k end = none
find_field k (field j v fs) = let rest = find_field k fs in if j == k then some v else rest

abbrev same_literal : String → Json → Bool
same_literal s (number t) = s == t
same_literal s j = false

abbrev same_str : String → Json → Bool
same_str s (str t) = s == t
same_str s j = false

unfoldable mutual
  unfolding find_field

  pub same_json : Json → Json → Bool
  same_json null null = true
  same_json null j = false
  same_json (bool true) j = equals_num j 1
  same_json (bool false) j = equals_num j 0
  same_json (num n) j = equals_num j n
  same_json (whole n) j = equals_num j n
  same_json (number s) j = same_literal s j
  same_json (str s) j = same_str s j
  same_json (arr js) (arr ks) = same_items js ks
  same_json (arr js) j = false
  same_json (obj fs) (obj gs) =
      nat_eq (length (fields fs)) (length (fields gs)) && same_fields fs gs
  same_json (obj fs) j = false

  pub same_items : Items → Items → Bool
  same_items nil nil = true
  same_items nil (cons k ks) = false
  same_items (cons j js) nil = false
  same_items (cons j js) (cons k ks) = same_json j k && same_items js ks

  pub same_fields : Fields → Fields → Bool
  same_fields end gs = true
  same_fields (field k v fs) gs =
      elim (find_field k gs) [ none ↦ false | some w ↦ same_json v w ] && same_fields fs gs
