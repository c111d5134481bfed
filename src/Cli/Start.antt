-- ===== src/Cli/Start.antt =====
-- What `RunUnstarted` of pkg/cli keeps: the closer that it returns, and which resources are open.
use pmap.Base.{List, [], ◌∷◌, ◌++◌, Bytes}
use pmap.Errors.{Result, ok, err, panicked}

-- What is opened, by the call that releases it: `Close` of a client, and `Stop` of a topic.
pub data Handle : Type 0 where
  pubsub_client : Handle
  topic : Bytes → Handle
  asset_client : Handle
  storage_client : Handle

-- `multicloser.Closer`: the nil closer, `Append`, and `Close` with its error.
pub record Closers (C : Type 0) : Type 0 where
  pub nil_closer : C
  pub append : C → List Handle → C

-- The closer so far, and the handles that were opened, the first one first. The code returns the
-- closer with the value or the error; on a panic it returns nothing, and this is the closer as it was.
pub record State (C : Type 0) : Type 0 where
  pub closer : C
  pub opened : List Handle

abbrev pub Start : Type 0 → Type 0 → Type 0
Start C A = State C → Result A × State C

module _ {C A : Type 0} where
  -- A call that opens nothing.
  unfoldable pub lift : Result A → Start C A
  lift r s = (r, s)

-- What follows a call: the next one, or the end.
abbrev pub proceed : {C A B : Type 0} → (A → Start C B) → Result A × State C → Result B × State C
proceed f (ok a, s) = f a s
proceed f (err e, s) = (err e, s)
proceed f (panicked, s) = (panicked, s)

infixl 5 ◌>>=◌
unfoldable pub ◌>>=◌ : {C A B : Type 0} → Start C A → (A → Start C B) → Start C B
◌>>=◌ m f s = proceed f (m s)

module _ {C A : Type 0} where
  -- A call that opens a resource if it succeeds.
  unfoldable pub open_handle : Handle → Result A → Start C A
  open_handle h (ok a) s = (ok a, record s { opened = s.opened ++ h ∷ [] })
  open_handle h (err e) s = (err e, s)
  open_handle h panicked s = (panicked, s)

  module _ (closers : Closers C) where
    -- The same, with `closer = multicloser.Append(closer, c.Close)` behind the test of the error.
    unfoldable pub acquire : Handle → Result A → Start C A
    acquire h (ok a) s =
        (ok a, record { closer = closers.append s.closer (h ∷ []); opened = s.opened ++ h ∷ [] })
    acquire h (err e) s = (err e, s)
    acquire h panicked s = (panicked, s)

module _ {C : Type 0} (closers : Closers C) where
  -- `Topic` of a client, which cannot fail, and `closer = multicloser.Append(closer, t.Stop, …)`.
  unfoldable pub stop_later : List Handle → Start C (Unit {0})
  stop_later hs s = (ok tt, record { closer = closers.append s.closer hs; opened = s.opened ++ hs })
