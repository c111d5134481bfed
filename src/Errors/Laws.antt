-- ===== src/Errors/Laws.antt =====
-- Which errors are user facing.
use pmap.Base.{◌≡◌, refl, ◌↔◌, ◌⊎◌, inl, inr, true, false, ◌||◌, none, some, arith, Bytes, Option}
use pmap.Errors.{
  Err, plain, wrapped, joined, process, process_nil, Errs, nil, cons, is, any_is, join,
}

-- An error that is a `*processError`, or that wraps or joins one at any depth.
mutual
  pub data UserFacing : Err → Type 0 where
    here : {e : Err} → UserFacing (process e)
    here_nil : UserFacing process_nil
    under : {text : Bytes} {e : Err} → UserFacing e → UserFacing (wrapped text e)
    among : {es : Errs} → OneUserFacing es → UserFacing (joined es)

  pub data OneUserFacing : Errs → Type 0 where
    head : {e : Err} {es : Errs} → UserFacing e → OneUserFacing (cons e es)
    tail : {e : Err} {es : Errs} → OneUserFacing es → OneUserFacing (cons e es)

or_sound : (b c : pmap.Base.Bool) → (b || c) ≡ true → (b ≡ true) ⊎ (c ≡ true)
or_sound b c h = ground arith

mutual
  unfolding is

  is_sound : (e : Err) → is e ≡ true → UserFacing e
  is_sound (plain text) h = absurd (cc)
  is_sound (wrapped text e) h = under (is_sound e h)
  is_sound (joined es) h = among (any_is_sound es h)
  is_sound (process e) h = here
  is_sound process_nil h = here_nil

  any_is_sound : (es : Errs) → any_is es ≡ true → OneUserFacing es
  any_is_sound nil h = absurd (cc)
  any_is_sound (cons e es) h = elim (or_sound (is e) (any_is es) h) [
    | inl first ↦ head (is_sound e first)
    | inr later ↦ tail (any_is_sound es later)
  ]

mutual
  unfolding is

  is_complete : {e : Err} → UserFacing e → is e ≡ true
  is_complete here = refl
  is_complete here_nil = refl
  is_complete (under u) = is_complete u
  is_complete (among o) = any_is_complete o

  any_is_complete : {es : Errs} → OneUserFacing es → any_is es ≡ true
  any_is_complete (head {e} {es} u) = let h = is_complete u in ground arith
  any_is_complete (tail {e} {es} o) = let h = any_is_complete o in ground arith

-- `Is` accepts exactly the errors that hold a `*processError` somewhere along what they wrap
-- and join.
pub is_iff : (e : Err) → (is e ≡ true) ↔ UserFacing e
is_iff e = (is_sound e, is_complete)

-- `errors.Join` keeps an error user facing if either of the two is.
pub is-join : (d e : Err) (r : Err) → join (some d) (some e) ≡ some r → is r ≡ (is d || is e)
unfolding join is
is-join d e r h = ground arith
