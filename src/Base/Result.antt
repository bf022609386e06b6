-- ===== src/Base/Result.antt =====
-- Exceptions as values: a result is a value or the error that was raised.
use mathlib.Core.Path.{◌≡◌, refl}
use mathlib.Core.Bool.{Bool, true, false, not, ◌&&◌}
use mathlib.Core.List.{List, [], ◌∷◌}
use mathlib.Core.Logic.{◌⊎◌, inl, inr}
use native.Mathlib.Omega.{arith}

pub data Result {ℓ κ} (E : Type ℓ) (A : Type κ) : Type (ℓ ⊔ κ) where
  err : E → Result E A
  ok : A → Result E A

module _ {ℓ} {E : Type ℓ} where
  abbrev pub is_ok {κ} : {A : Type κ} → Result E A → Bool
  is_ok (err raised) = false
  is_ok (ok value) = true

  infixl 5 ◌>>=◌
  -- The code after a call that may raise.
  abbrev pub ◌>>=◌ {κ μ} : {A : Type κ} {B : Type μ} → Result E A → (A → Result E B) → Result E B
  err raised >>= rest = err raised
  ok value >>= rest = rest value

  -- `if not test: raise e`
  abbrev pub require : Bool → E → Result E (Unit {0})
  require false raised = err raised
  require true raised = ok tt

  -- `if test: raise e`
  abbrev pub reject_if : Bool → E → Result E (Unit {0})
  reject_if false raised = ok tt
  reject_if true raised = err raised

  infixl 5 ◌>>◌
  abbrev pub ◌>>◌ {κ} : {B : Type κ} → Result E (Unit {0}) → Result E B → Result E B
  err raised >> rest = err raised
  ok done >> rest = rest

  -- `[f(x) for x in xs]`, which stops at the first error.
  abbrev pub traverse {κ μ} :
      {A : Type κ} {B : Type μ} → (A → Result E B) → List A → Result E (List B)
  traverse f [] = ok []
  traverse f (x ∷ xs) = f x >>= λ y. traverse f xs >>= λ ys. ok (y ∷ ys)

  -- A chain that succeeds: its first call returned some value, and the rest succeeded on it.
  pub >>=-eq-ok {κ μ} :
      {A : Type κ} {B : Type μ} (call : Result E A) (rest : A → Result E B) {final : B}
      → (call >>= rest) ≡ ok final
      → (value : A) × (call ≡ ok value) × (rest value ≡ ok final)
  >>=-eq-ok (err raised) rest success = absurd (ground arith)
  >>=-eq-ok (ok value) rest success = (value, refl, success)

pub ok_inj {ℓ κ} : {E : Type ℓ} {A : Type κ} {a b : A} → ◌≡◌ {A = Result E A} (ok a) (ok b) → a ≡ b
ok_inj h = cc

module _ {ℓ κ} {E : Type ℓ} {A : Type κ} where
  pub reject_if-eq-ok :
      (b : Bool) (e : E) (k : Result E A) {a : A}
      → (reject_if b e >> k) ≡ ok a
      → (b ≡ false) × (k ≡ ok a)
  reject_if-eq-ok true e k h = absurd (ground arith)
  reject_if-eq-ok false e k h = (refl, h)

  pub require-eq-ok :
      (b : Bool) (e : E) (k : Result E A) {a : A}
      → (require b e >> k) ≡ ok a
      → (b ≡ true) × (k ≡ ok a)
  require-eq-ok true e k h = (refl, h)
  require-eq-ok false e k h = absurd (ground arith)

  pub >>-eq-ok :
      (m : Result E (Unit {0})) (k : Result E A) {a : A}
      → (m >> k) ≡ ok a
      → (is_ok m ≡ true) × (k ≡ ok a)
  >>-eq-ok (ok u) k h = (refl, h)
  >>-eq-ok (err e) k h = absurd (ground arith)

  pub Result-cases : (m : Result E A) → ((e : E) × (m ≡ err e)) ⊎ ((a : A) × (m ≡ ok a))
  Result-cases (ok a) = inr (a, refl)
  Result-cases (err e) = inl (e, refl)

module _ {ℓ} {E : Type ℓ} where
  pub is_ok-require : (b : Bool) (e : E) → is_ok (require b e) ≡ b
  is_ok-require true e = refl
  is_ok-require false e = refl

  pub is_ok-reject_if : (b : Bool) (e : E) → is_ok (reject_if b e) ≡ not b
  is_ok-reject_if true e = refl
  is_ok-reject_if false e = refl

  pub is_ok->> {κ} :
      {A : Type κ} (m : Result E (Unit {0})) (k : Result E A)
      → is_ok (m >> k) ≡ (is_ok m && is_ok k)
  is_ok->> (ok u) k = refl
  is_ok->> (err e) k = refl
