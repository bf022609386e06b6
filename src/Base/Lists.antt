-- ===== src/Base/Lists.antt =====
-- Lists measured by native numbers, Boolean quantifiers, and Python's `in` and `sorted` on texts.
use Prim.Native.Nat.{ℕ, suc, ◌+◌}
use Prim.Native.String.{String}
use mathlib.Core.Path.{◌≡◌, refl, ◌∙◌, ap}
use mathlib.Core.Bool.{Bool, true, false, not, ◌&&◌, ◌||◌}
use mathlib.Core.List.{List, [], ◌∷◌, ◌++◌}
use mathlib.Core.Logic.{◌⊎◌, inl, inr}
use native.Mathlib.Omega.{arith}
use text.Mathlib.Text.{◌==◌}
use text.Mathlib.TextEquality.{eq_iff}
use text.Mathlib.TextPositions.{eq_refl}
use oxide_batch_workloads.Base.Tests.{if◌then◌else◌, text_leb}

module _ {ℓ} {A : Type ℓ} where
  abbrev pub length : List A → ℕ
  length [] = 0
  length (x ∷ xs) = suc (length xs)

  abbrev pub is_empty : List A → Bool
  is_empty [] = true
  is_empty (x ∷ xs) = false

  abbrev pub all : (A → Bool) → List A → Bool
  all p [] = true
  all p (x ∷ xs) = p x && all p xs

  abbrev pub any : (A → Bool) → List A → Bool
  any p [] = false
  any p (x ∷ xs) = p x || any p xs

  -- A comprehension's `if`.
  abbrev pub select : (A → Bool) → List A → List A
  select p [] = []
  select p (x ∷ xs) = let rest = select p xs in if p x then x ∷ rest else rest

  pub length-append : (xs ys : List A) → length (xs ++ ys) ≡ length xs + length ys
  length-append [] ys = omega arith
  length-append (x ∷ xs) ys = omega (arith, length-append xs ys)

  pub is_empty-append : (xs ys : List A) → is_empty (xs ++ ys) ≡ (is_empty xs && is_empty ys)
  is_empty-append [] ys = refl
  is_empty-append (x ∷ xs) ys = refl

  pub select-append :
      (p : A → Bool) (xs ys : List A) → select p (xs ++ ys) ≡ select p xs ++ select p ys
  select-append p [] ys = refl
  select-append p (x ∷ xs) ys = ground (arith, select-append p xs ys)

  pub all-select : (p : A → Bool) (xs : List A) → all p (select p xs) ≡ true
  all-select p [] = refl
  all-select p (x ∷ xs) = ground (arith, all-select p xs)

-- What holds of every entry.
abbrev pub All {ℓ κ} : {A : Type ℓ} → (A → Type κ) → List A → Type κ
All P [] = Unit
All P (x ∷ xs) = P x × All P xs

abbrev pub contains : List String → String → Bool
contains [] a = false
contains (x ∷ xs) a = x == a || contains xs a

pub contains-append :
    (xs ys : List String) (a : String) → contains (xs ++ ys) a ≡ (contains xs a || contains ys a)
contains-append [] ys a = refl
contains-append (x ∷ xs) ys a = ground (arith, contains-append xs ys a)

-- No text is listed twice.
abbrev pub distinct : List String → Bool
distinct [] = true
distinct (x ∷ xs) = not (contains xs x) && distinct xs

pub all_of_contains :
    (p : String → Bool) (xs : List String) (a : String)
    → all p xs ≡ true
    → contains xs a ≡ true
    → p a ≡ true
all_of_contains p (x ∷ xs) a h m = ground (arith, eq_iff x a, all_of_contains p xs a)
all_of_contains p [] a h m = ground arith

pub all_by_contains :
    (p : String → Bool) (xs : List String)
    → ((a : String) → contains xs a ≡ true → p a ≡ true)
    → all p xs ≡ true
all_by_contains p [] h = refl
all_by_contains p (x ∷ xs) h =
    ground (arith, h x, eq_refl x, all_by_contains p xs (λ a m. h a (ground arith)))

-- `sorted` on texts: a stable insertion sort.
insert_sorted : String → List String → List String
insert_sorted x [] = x ∷ []
insert_sorted x (y ∷ ys) =
    let later = y ∷ insert_sorted x ys in if text_leb x y then x ∷ y ∷ ys else later

unfoldable pub sorted : List String → List String
unfolding insert_sorted
sorted [] = []
sorted (x ∷ xs) = insert_sorted x (sorted xs)

all-insert_sorted :
    (p : String → Bool) (x : String) (ys : List String)
    → all p (insert_sorted x ys) ≡ (p x && all p ys)
unfolding insert_sorted
all-insert_sorted p x [] = refl
all-insert_sorted p x (y ∷ ys) = ground (arith, all-insert_sorted p x ys)

-- Sorting changes no statement about every entry.
pub all-sorted : (p : String → Bool) (xs : List String) → all p (sorted xs) ≡ all p xs
unfolding sorted
all-sorted p [] = refl
all-sorted p (x ∷ xs) = all-insert_sorted p x (sorted xs) ∙ ap (λ b. p x && b) (all-sorted p xs)

-- No text of the first list is in the second.
abbrev pub disjoint : List String → List String → Bool
disjoint xs ys = all (λ x. not (contains ys x)) xs

pub disjoint-cons :
    (xs : List String) (y : String) (ys : List String)
    → disjoint xs (y ∷ ys) ≡ (not (contains xs y) && disjoint xs ys)
disjoint-cons [] y ys = refl
disjoint-cons (x ∷ xs) y ys = ground (arith, disjoint-cons xs y ys, eq_iff x y, eq_iff y x)

pub disjoint_congr :
    (xs ys zs : List String)
    → ((w : String) → contains ys w ≡ contains zs w)
    → disjoint xs ys ≡ disjoint xs zs
disjoint_congr [] ys zs h = refl
disjoint_congr (x ∷ xs) ys zs h = ground (arith, h x, disjoint_congr xs ys zs h)

pub disjoint_comm : (xs ys : List String) → disjoint xs ys ≡ disjoint ys xs
disjoint_comm [] [] = refl
disjoint_comm [] (y ∷ ys) = ground (arith, disjoint_comm [] ys)
disjoint_comm (x ∷ xs) ys = ground (arith, disjoint_comm xs ys, disjoint-cons ys x xs)

pub distinct-append :
    (xs ys : List String) → distinct (xs ++ ys) ≡ (distinct xs && (distinct ys && disjoint xs ys))
distinct-append [] ys = ground arith
distinct-append (x ∷ xs) ys = ground (arith, distinct-append xs ys, contains-append xs ys x)

-- A filter that keeps nothing.
pub is_empty-select :
    (xs ys : List String) → is_empty (select (λ y. not (contains xs y)) ys) ≡ all (contains xs) ys
is_empty-select xs [] = refl
is_empty-select xs (y ∷ ys) = ground (arith, is_empty-select xs ys)

-- Two lists that contain each other contain the same texts.
pub contains_antisymm :
    (xs ys : List String)
    → all (contains xs) ys ≡ true
    → all (contains ys) xs ≡ true
    → (w : String) → contains xs w ≡ contains ys w
contains_antisymm xs ys h k w =
    ground (arith, all_of_contains (contains xs) ys w h, all_of_contains (contains ys) xs w k)

pub contains-select :
    (p : String → Bool) (xs : List String) (l : String)
    → contains (select p xs) l ≡ (contains xs l && p l)
contains-select p [] l = refl
contains-select p (x ∷ xs) l = ground (arith, contains-select p xs l, eq_iff x l)

contains-insert_sorted :
    (x : String) (ys : List String) (l : String)
    → contains (insert_sorted x ys) l ≡ (x == l || contains ys l)
unfolding insert_sorted
contains-insert_sorted x [] l = refl
contains-insert_sorted x (y ∷ ys) l = ground (arith, contains-insert_sorted x ys l)

pub contains-sorted : (xs : List String) (l : String) → contains (sorted xs) l ≡ contains xs l
unfolding sorted
contains-sorted [] l = refl
contains-sorted (x ∷ xs) l =
    ground (arith, contains-insert_sorted x (sorted xs) l, contains-sorted xs l)

pub List-cases {ℓ} :
    {A : Type ℓ} (xs : List A) → (xs ≡ []) ⊎ ((x : A) × (rest : List A) × (xs ≡ x ∷ rest))
List-cases [] = inl refl
List-cases (x ∷ xs) = inr (x, xs, refl)
