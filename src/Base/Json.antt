-- ===== src/Base/Json.antt =====
-- Parsed JSON, as `json.loads` returns it, and Python's `isinstance` tests on it.
use Prim.Native.Nat.{ℕ, zero, suc}
use Prim.Native.String.{String}
use mathlib.Core.Bool.{Bool, true, false}
use mathlib.Core.Option.{Option, none, some}
use mathlib.Core.List.{List, [], ◌∷◌}
use oxide_batch_workloads.Base.Tests.{nat_eq}
use oxide_batch_workloads.Base.Dict.{Dict, lookup}

-- `num n` is the integer n, `whole n` the float that equals it, and `number s` any other number, by
-- a literal that equal numbers share. The keys of an object are distinct, since `json.loads` keeps the last of a key.
mutual
  pub data Json : Type 0 where
    null : Json
    bool : Bool → Json
    num : ℕ → Json
    whole : ℕ → Json
    number : String → Json
    str : String → Json
    arr : Items → Json
    obj : Fields → Json

  pub data Items : Type 0 where
    nil : Items
    cons : Json → Items → Items

  pub data Fields : Type 0 where
    end : Fields
    field : String → Json → Fields → Fields

abbrev pub items : Items → List Json
items nil = []
items (cons j js) = j ∷ items js

abbrev pub fields : Fields → Dict Json
fields end = []
fields (field k j fs) = (k, j) ∷ fields fs

-- A dict literal, and a list literal.
abbrev pub object : Dict Json → Fields
object [] = end
object ((k, j) ∷ d) = field k j (object d)

abbrev pub array : List Json → Items
array [] = nil
array (j ∷ js) = cons j (array js)

-- `isinstance(j, dict)`, with the dict; and so on for the other classes.
abbrev pub as_dict : Json → Option (Dict Json)
as_dict (obj fs) = some (fields fs)
as_dict j = none

abbrev pub as_list : Json → Option (List Json)
as_list (arr js) = some (items js)
as_list j = none

abbrev pub as_str : Json → Option String
as_str (str s) = some s
as_str j = none

abbrev pub as_bool : Json → Option Bool
as_bool (bool b) = some b
as_bool j = none

-- `d.get(k)`: a missing key gives `None`, which is also the value of `null`.
unfoldable pub get : Dict Json → String → Json
unfolding lookup
get d k = elim (lookup k d) [ none ↦ null | some j ↦ j ]

-- `j == n`; in Python `True == 1` and `False == 0`.
abbrev pub equals_num : Json → ℕ → Bool
equals_num (num m) n = nat_eq m n
equals_num (whole m) n = nat_eq m n
equals_num (bool true) n = nat_eq 1 n
equals_num (bool false) n = nat_eq 0 n
equals_num j n = false

-- `bool(j)`
abbrev pub truthy : Json → Bool
truthy null = false
truthy (bool b) = b
truthy (num n) = elim n [ zero ↦ false | suc m ↦ true ]
truthy (whole n) = elim n [ zero ↦ false | suc m ↦ true ]
truthy (number s) = true
truthy (str String.[]) = false
truthy (str (String.◌∷◌ c s)) = true
truthy (arr nil) = false
truthy (arr (cons j js)) = true
truthy (obj end) = false
truthy (obj (field k j fs)) = true

-- A list or a dict has no hash, so a set cannot be asked for it.
abbrev pub hashable : Json → Bool
hashable (arr js) = false
hashable (obj fs) = false
hashable j = true

-- `isinstance(j, int) and not isinstance(j, bool)`, with the integer, for one that is not negative.
abbrev pub as_nat : Json → Option ℕ
as_nat (num n) = some n
as_nat j = none
