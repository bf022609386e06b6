-- ===== src/Preflight/Effects.antt =====
-- Code that acts on a state and may raise: what it returns or raises, and the state it leaves.
use oxide_batch_workloads.Base.{◌≡◌, refl, Bool, arith, Bool-cases, inl, inr, if◌then◌else◌}
use oxide_batch_workloads.Base.Result.{Result, ok, err}

abbrev pub Act : Type 0 → Type 0 → Type 0 → Type 0
Act S E A = S → Result E A × S

-- `try: m except …: raise e`, for the exceptions that the clause names.
abbrev pub raised_as : {E A : Type 0} → (E → Bool) → (E → E) → Result E A → Result E A
raised_as caught f (ok a) = ok a
raised_as caught f (err e) = if caught e then err (f e) else err e

module _ {S E : Type 0} where
  abbrev pub lift : {A : Type 0} → Result E A → Act S E A
  lift r s = (r, s)

  abbrev pub returns : {A : Type 0} → A → Act S E A
  returns a s = (ok a, s)

  abbrev pub after : {A B : Type 0} → (A → Act S E B) → Result E A → Act S E B
  after rest (err e) s = (err e, s)
  after rest (ok a) s = rest a s

  infixl 5 ◌>>=◌
  unfoldable pub ◌>>=◌ : {A B : Type 0} → Act S E A → (A → Act S E B) → Act S E B
  (m >>= rest) s = after rest ((m s).0) ((m s).1)

  infixl 5 ◌>>◌
  abbrev pub ◌>>◌ : {A B : Type 0} → Act S E A → Act S E B → Act S E B
  m >> rest = m >>= λ done. rest

  abbrev pub rethrow : {A : Type 0} → (E → Bool) → (E → E) → Act S E A → Act S E A
  rethrow caught f m s = (raised_as caught f ((m s).0), (m s).1)

  after-eq-ok :
      {A B : Type 0} (rest : A → Act S E B) (p : Result E A × S) {t : S} {b : B}
      → after rest (p.0) (p.1) ≡ (ok b, t)
      → (a : A) × (between : S) × (p ≡ (ok a, between)) × (rest a between ≡ (ok b, t))
  after-eq-ok rest (err e, s) h = absurd (ground arith)
  after-eq-ok rest (ok a, s) h = (a, s, refl, h)

  -- A chain that succeeds: its first call succeeded, and so did the rest in the state it left.
  pub act-eq-ok :
      {A B : Type 0} (m : Act S E A) (rest : A → Act S E B) (s : S) {t : S} {b : B}
      → (m >>= rest) s ≡ (ok b, t)
      → (a : A) × (between : S) × (m s ≡ (ok a, between)) × (rest a between ≡ (ok b, t))
  unfolding ◌>>=◌
  act-eq-ok m rest s h = after-eq-ok rest (m s) h

  -- An action without effect that succeeds.
  pub lift-eq-ok :
      {A B : Type 0} (r : Result E A) (rest : A → Act S E B) (s : S) {t : S} {b : B}
      → (lift r >>= rest) s ≡ (ok b, t)
      → (a : A) × (r ≡ ok a) × (rest a s ≡ (ok b, t))
  unfolding ◌>>=◌
  lift-eq-ok (err e) rest s h = absurd (ground arith)
  lift-eq-ok (ok a) rest s h = (a, refl, h)

  raised_as-eq-ok :
      {A : Type 0} (caught : E → Bool) (f : E → E) (p : Result E A × S) {u : S} {a : A}
      → ◌≡◌ {A = Result E A × S} (raised_as caught f (p.0), p.1) (ok a, u)
      → p ≡ (ok a, u)
  raised_as-eq-ok caught f (ok b, t) h = h
  raised_as-eq-ok caught f (err e, t) h = elim (Bool-cases (caught e)) [
    | inl named ↦ absurd (ground (arith, rw named at h))
    | inr other ↦ absurd (ground (arith, rw other at h))
  ]

  -- What a `try` returns, its body returned.
  pub rethrow-eq-ok :
      {A : Type 0} (caught : E → Bool) (f : E → E) (m : Act S E A) (s : S) {u : S} {a : A}
      → rethrow caught f m s ≡ (ok a, u)
      → m s ≡ (ok a, u)
  rethrow-eq-ok caught f m s h = raised_as-eq-ok caught f (m s) h
