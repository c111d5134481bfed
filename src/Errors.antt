-- ===== src/Errors.antt =====
-- pkg/pmaperrors/pmaperrors.go, over Go's `error` values, and the results of fallible code.
-- An error is nil in `Option Err`; `Err` is an error that is not nil. What `%w` keeps is a
-- constructor of its own, and what `%v` prints is text only.
pub mod Laws
pub mod Leaves
pub mod Fallible
pub mod Act
use pmap.Base.{Bool, true, false, ◌||◌, Option, none, some, List, [], ◌∷◌, ◌++◌, Bytes, codes}

mutual
  pub data Err : Type 0 where
    -- `errors.New`, and `fmt.Errorf` with no `%w`
    plain : Bytes → Err
    -- `fmt.Errorf("text%w", err)`
    wrapped : Bytes → Err → Err
    -- `errors.Join`
    joined : Errs → Err
    -- `&processError{err}`, and the same with a nil error inside
    process : Err → Err
    process_nil : Err

  pub data Errs : Type 0 where
    nil : Errs
    cons : Err → Errs → Errs

-- `New`: the format and its arguments are the text that `fmt.Errorf` makes of them.
unfoldable pub new : Bytes → Err
new text = process (plain text)

-- `Wrap`
unfoldable pub wrap : Option Err → Option Err
wrap none = none
wrap (some e) = some (process e)

-- `Is`: `errors.As` looks for a `*processError` along the `Unwrap` methods.
unfoldable mutual
  pub is : Err → Bool
  is (plain text) = false
  is (wrapped text e) = is e
  is (joined es) = any_is es
  is (process e) = true
  is process_nil = true

  pub any_is : Errs → Bool
  any_is nil = false
  any_is (cons e es) = is e || any_is es

-- `Unwrap` of a `processError`; other errors have a method of their own.
unfoldable pub unwrap : Err → Option Err
unwrap (process e) = some e
unwrap (wrapped text e) = some e
unwrap _ = none

-- `Error`
unfoldable mutual
  pub message : Err → Bytes
  message (plain text) = text
  message (wrapped text e) = text ++ message e
  message (joined es) = messages es
  message (process e) = codes "pmap process err: " ++ message e
  message process_nil = codes "pmap process err: <nil>"

  pub messages : Errs → Bytes
  messages nil = []
  messages (cons e es) = message e ++ lines es

  -- the texts behind the first one, each on a line of its own
  pub lines : Errs → Bytes
  lines nil = []
  lines (cons e es) = b'\n' ∷ (message e ++ lines es)

-- `errors.Join` of two errors
unfoldable pub join : Option Err → Option Err → Option Err
join none none = none
join none (some e) = some (joined (cons e nil))
join (some d) none = some (joined (cons d nil))
join (some d) (some e) = some (joined (cons d (cons e nil)))

-- What a call that returns `(A, error)` gives: a value, an error, or a panic.
pub data Result {ℓ} (A : Type ℓ) : Type ℓ where
  ok : A → Result A
  err : Err → Result A
  panicked : Result A

infixl 5 ◌>>=◌ ◌>>◌
abbrev pub ◌>>=◌ {ℓ κ} : {A : Type ℓ} {B : Type κ} → Result A → (A → Result B) → Result B
ok a >>= f = f a
err e >>= f = err e
panicked >>= f = panicked

abbrev pub ◌>>◌ {ℓ κ} : {A : Type ℓ} {B : Type κ} → Result A → Result B → Result B
m >> k = m >>= λ _. k

-- `if err != nil { return fmt.Errorf("text%w", err) }`
abbrev pub or_wrap {ℓ} : {A : Type ℓ} → Result A → Bytes → Result A
or_wrap (ok a) text = ok a
or_wrap (err e) text = err (wrapped text e)
or_wrap panicked text = panicked

-- `if err != nil { return pmaperrors.New("text%v", err) }`
abbrev pub or_new {ℓ} : {A : Type ℓ} → Result A → Bytes → Result A
or_new (ok a) text = ok a
or_new (err e) text = err (new (text ++ message e))
or_new panicked text = panicked

-- `if c { return err }`
abbrev pub fail_if : Bool → Err → Result (Unit {0})
fail_if true e = err e
fail_if false e = ok tt
