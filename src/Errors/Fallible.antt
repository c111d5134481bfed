-- ===== src/Errors/Fallible.antt =====
-- Results of code that cannot panic.
use pmap.Base.{◌≡◌, refl, Bytes, ◌++◌}
use pmap.Errors.{Err, wrapped, new, message}

pub data Fallible {ℓ} (A : Type ℓ) : Type ℓ where
  value : A → Fallible A
  failed : Err → Fallible A

infixl 5 ◌>>=◌
abbrev pub ◌>>=◌ {ℓ κ} : {A : Type ℓ} {B : Type κ} → Fallible A → (A → Fallible B) → Fallible B
value a >>= f = f a
failed e >>= f = failed e

-- `if err != nil { return fmt.Errorf("text%w", err) }`
abbrev pub or_wrap {ℓ} : {A : Type ℓ} → Fallible A → Bytes → Fallible A
or_wrap (value a) text = value a
or_wrap (failed e) text = failed (wrapped text e)

-- `if err != nil { return pmaperrors.New("text%v", err) }`
abbrev pub or_new {ℓ} : {A : Type ℓ} → Fallible A → Bytes → Fallible A
or_new (value a) text = value a
or_new (failed e) text = failed (new (text ++ message e))

-- The parts of a chain that succeeds.
pub >>=-eq-value {ℓ κ} :
    {A : Type ℓ} {B : Type κ} (m : Fallible A) (f : A → Fallible B) {b : B}
    → (m >>= f) ≡ value b
    → (a : A) × (m ≡ value a) × (f a ≡ value b)
>>=-eq-value (value a) f h = (a, refl, h)
>>=-eq-value (failed e) f h = cc

pub or_wrap-eq-value {ℓ} :
    {A : Type ℓ} (m : Fallible A) (text : Bytes) {a : A} → or_wrap m text ≡ value a → m ≡ value a
or_wrap-eq-value (value b) text h = h
or_wrap-eq-value (failed e) text h = cc
