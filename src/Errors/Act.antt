-- ===== src/Errors/Act.antt =====
-- Go code that changes what is outside of it and returns `(A, error)`, or panics.
use pmap.Base.{◌≡◌, refl, Bytes}
use pmap.Errors.{Err, Result, ok, err, panicked, wrapped}
use pmap.Errors
use pmap.Errors.Fallible.{Fallible, value, failed}

abbrev pub Act : Type 0 → Type 0 → Type 0
Act W A = W → Result A × W

abbrev pub to_result : {A : Type 0} → Fallible A → Result A
to_result (value a) = ok a
to_result (failed e) = err e

module _ {W A : Type 0} where
  abbrev pub lift : Fallible A → Act W A
  lift r w = (to_result r, w)

  abbrev pub call_result : Fallible A × W → Result A × W
  call_result (r, w) = (to_result r, w)

  -- A call that cannot panic.
  abbrev pub call : (W → Fallible A × W) → Act W A
  call m w = call_result (m w)

  abbrev pub wrap_result : Bytes → Result A × W → Result A × W
  wrap_result text (r, w) = (Errors.or_wrap r text, w)

  -- `if err != nil { return fmt.Errorf("text%w", err) }`
  abbrev pub or_wrap : Act W A → Bytes → Act W A
  or_wrap m text w = wrap_result text (m w)

abbrev pub proceed : {W A B : Type 0} → (A → Act W B) → Result A × W → Result B × W
proceed f (ok a, w) = f a w
proceed f (err e, w) = (err e, w)
proceed f (panicked, w) = (panicked, w)

infixl 5 ◌>>=◌ ◌>>◌
abbrev pub ◌>>=◌ : {W A B : Type 0} → Act W A → (A → Act W B) → Act W B
◌>>=◌ m f w = proceed f (m w)

abbrev pub ◌>>◌ : {W A B : Type 0} → Act W A → Act W B → Act W B
m >> k = m >>= λ _. k

-- The parts of a chain that succeeds.
pub proceed-eq-ok :
    {W A B : Type 0} (f : A → Act W B) (r : Result A × W) {v : W} {b : B}
    → proceed f r ≡ (ok b, v)
    → (a : A) × (u : W) × (r ≡ (ok a, u)) × (f a u ≡ (ok b, v))
proceed-eq-ok f (ok a, w) h = (a, w, refl, h)
proceed-eq-ok f (err e, w) h = absurd (cc)
proceed-eq-ok f (panicked, w) h = absurd (cc)

module _ {W A : Type 0} {w : W} {a : A} where
  pub wrap_result-eq-ok :
      (text : Bytes) (r : Result A × W) → wrap_result text r ≡ (ok a, w) → r ≡ (ok a, w)
  wrap_result-eq-ok text (ok b, v) h = h
  wrap_result-eq-ok text (err e, v) h = absurd (cc)
  wrap_result-eq-ok text (panicked, v) h = absurd (cc)

  pub call_result-eq-ok : (r : Fallible A × W) → call_result r ≡ (ok a, w) → r ≡ (value a, w)
  call_result-eq-ok (value b, v) h = cc
  call_result-eq-ok (failed e, v) h = absurd (cc)

  pub to_result-eq-ok :
      (r : Fallible A) {v : W}
      → ◌≡◌ {A = Result A × W} (to_result r, v) (ok a, w)
      → (r ≡ value a) × (v ≡ w)
  to_result-eq-ok (value b) h = (cc, cc)
  to_result-eq-ok (failed e) h = absurd (cc)
