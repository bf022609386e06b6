-- ===== src/Base/Dict.antt =====
-- Python's dicts with text keys, as association lists in insertion order.
use Prim.Native.String.{String}
use mathlib.Core.Path.{◌≡◌, refl}
use mathlib.Core.Bool.{Bool, true, ◌||◌}
use mathlib.Core.Option.{Option, none, some}
use mathlib.Core.List.{List, [], ◌∷◌}
use native.Mathlib.Omega.{arith}
use text.Mathlib.Text.{◌==◌}
use text.Mathlib.TextEquality.{eq_iff}
use oxide_batch_workloads.Base.Tests.{if◌then◌else◌, is_some}
use oxide_batch_workloads.Base.Lists.{contains, distinct}

abbrev pub Dict {ℓ} : Type ℓ → Type ℓ
Dict V = List (String × V)

module _ {ℓ} {V : Type ℓ} where
  unfoldable pub lookup : String → Dict V → Option V
  lookup k [] = none
  lookup k ((j, v) ∷ d) = if j == k then some v else lookup k d

  -- `d[k] = v`: a key keeps its place.
  unfoldable pub insert : String → V → Dict V → Dict V
  insert k v [] = (k, v) ∷ []
  insert k v ((j, w) ∷ d) = if j == k then (j, v) ∷ d else (j, w) ∷ insert k v d

  abbrev pub keys : Dict V → List String
  keys [] = []
  keys ((j, v) ∷ d) = j ∷ keys d

  -- `k in d`
  abbrev pub has_key : Dict V → String → Bool
  has_key d k = contains (keys d) k

  pub lookup-insert :
      (k j : String) (v : V) (d : Dict V)
      → lookup j (insert k v d) ≡ (if k == j then some v else lookup j d)
  unfolding lookup insert
  lookup-insert k j v [] = refl
  lookup-insert k j v ((i, w) ∷ d) =
      ground (arith, eq_iff k j, eq_iff i k, eq_iff i j, lookup-insert k j v d)

  pub has_key-lookup : (k : String) (d : Dict V) → has_key d k ≡ is_some (lookup k d)
  unfolding lookup
  has_key-lookup k [] = refl
  has_key-lookup k ((j, v) ∷ d) = ground (arith, has_key-lookup k d)

  pub has_key-insert :
      (k j : String) (v : V) (d : Dict V) → has_key (insert k v d) j ≡ (k == j || has_key d j)
  has_key-insert k j v d =
      ground (arith, has_key-lookup j (insert k v d), has_key-lookup j d, lookup-insert k j v d)

  pub distinct-insert :
      (k : String) (v : V) (d : Dict V)
      → distinct (keys d) ≡ true
      → distinct (keys (insert k v d)) ≡ true
  unfolding insert
  distinct-insert k v [] h = refl
  distinct-insert k v ((j, w) ∷ d) h =
      ground (arith, distinct-insert k v d, has_key-insert k j v d, eq_iff j k, eq_iff k j)
