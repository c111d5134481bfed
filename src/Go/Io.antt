-- ===== src/Go/Io.antt =====
-- Go's `io.ReadAll(io.LimitReader(r, n))`.
use pmap.Base.{
  ℕ, ◌≡◌, ◌≤◌, Option, none, some, arith, Bytes, length, take, leb, if◌then◌else◌, take_all,
}
use pmap.Errors.{Err, Result, ok, err}

-- A reader delivers its content, and then, by a call of its own, the end or an error. A reader that
-- delivers its last bytes together with an error, as `io.Reader` allows, is not modelled.
pub record Reader : Type 0 where
  pub content : Bytes
  pub failure : Option Err

-- What is read when the content is shorter than the limit.
abbrev finish : Option Err → Bytes → Result Bytes
finish none b = ok b
finish (some e) b = err e

-- At the limit the reader is not asked again, so a later error is not seen.
unfoldable pub read_all_limited : ℕ → Reader → Result Bytes
read_all_limited n r =
    if leb n (length r.content) then ok (take n r.content) else finish r.failure r.content

-- A text of at most the limit is read whole.
pub read_all_limited_whole :
    (n : ℕ) (b : Bytes)
    → length b ≤ n
    → read_all_limited n (record { content = b; failure = none }) ≡ ok b
unfolding read_all_limited
read_all_limited_whole n b h = ground (arith, take_all n b)
