-- ===== src/Go/Url.antt =====
-- Go's `url.ParseQuery`. `quote` is `strconv.Quote`, which only error texts show.
pub mod Plain
pub mod Pairs
use pmap.Base.{
  ℕ, ◌+◌, ◌-◌, ◌*◌, Bool, ◌&&◌, ◌||◌, Option, none, some, List, [], ◌∷◌, ◌++◌, Bytes, codes, leb,
  ◌==◌, nat_eq, bytes_eq, if◌then◌else◌,
}
use pmap.Base.Dict.{Dict, lookup, insert}
use pmap.Errors.{Err, plain}
use pmap.Go.Strings.{split, contains, cut_before, cut_after}

unfoldable pub in_range : ℕ → ℕ → ℕ → Bool
in_range lo hi c = leb lo c && leb c hi

unfoldable pub is_hex : ℕ → Bool
unfolding in_range
is_hex c = in_range b'0' b'9' c || (in_range b'a' b'f' c || in_range b'A' b'F' c)

unfoldable pub unhex : ℕ → ℕ
unfolding in_range
unhex c =
    if in_range b'0' b'9' c
    then c - b'0'
    else if in_range b'a' b'f' c
    then c - b'a' + 10
    else c - b'A' + 10

-- What `QueryUnescape` gives: the text, or the escape that is not one.
pub data Unescaped : Type 0 where
  text : Bytes → Unescaped
  malformed : Bytes → Unescaped

abbrev pub before : ℕ → Unescaped → Unescaped
before c (text s) = text (c ∷ s)
before c (malformed bad) = malformed bad

abbrev pub plus : ℕ → ℕ
plus c = if c == b'+' then b' ' else c

unfoldable pub unescape : Bytes → Unescaped
unfolding is_hex unhex
unescape [] = text []
unescape (c ∷ []) = if c == b'%' then malformed (c ∷ []) else text (plus c ∷ [])
unescape (c ∷ d ∷ []) =
    let rest = before (plus c) (unescape (d ∷ [])) in
    if c == b'%' then malformed (c ∷ d ∷ []) else rest
unescape (c ∷ d ∷ e ∷ s) =
    let escaped = before (unhex d * 16 + unhex e) (unescape s) in
    let rest = before (plus c) (unescape (d ∷ e ∷ s)) in
    if c == b'%'
    then (if is_hex d && is_hex e then escaped else malformed (c ∷ d ∷ e ∷ []))
    else rest

-- `url.Values`
abbrev pub Values : Type 0
Values = Dict (List Bytes)

abbrev pub or_empty : Option (List Bytes) → List Bytes
or_empty none = []
or_empty (some vs) = vs

-- `m[key] = append(m[key], value)`
unfoldable pub add : Bytes → Bytes → Values → Values
add k v m = insert k (or_empty (lookup k m) ++ v ∷ []) m

-- The first malformed escape is the error that stays.
abbrev pub keep_first : Option Err → Err → Option Err
keep_first none e = some e
keep_first (some d) e = some d

module _ (quote : Bytes → Bytes) where
  unfoldable pub escape_error : Bytes → Err
  escape_error bad = plain (codes "invalid URL escape " ++ quote bad)

  unfoldable pub add_unescaped : Unescaped → Unescaped → Values × Option Err → Values × Option Err
  unfolding add escape_error
  add_unescaped (malformed bad) v (m, e) = (m, keep_first e (escape_error bad))
  add_unescaped (text k) (malformed bad) (m, e) = (m, keep_first e (escape_error bad))
  add_unescaped (text k) (text v) (m, e) = (add k v m, e)

  -- One round of the loop, for the text up to the next `&`.
  unfoldable pub add_piece : Bytes → Values × Option Err → Values × Option Err
  unfolding add_unescaped
  add_piece piece (m, e) =
      if contains piece b';'
      then (m, some (plain (codes "invalid semicolon separator in query")))
      else if piece == []
      then (m, e)
      else add_unescaped (unescape (cut_before piece b'=')) (unescape (cut_after piece b'=')) (m, e)

  unfoldable pub add_pieces : List Bytes → Values × Option Err → Values × Option Err
  unfolding add_piece
  add_pieces [] r = r
  add_pieces (p ∷ ps) r = add_pieces ps (add_piece p r)

  -- The loop ends at the end of the query; an empty piece adds nothing.
  unfoldable pub parse_query : Bytes → Values × Option Err
  unfolding add_pieces
  parse_query query = add_pieces (split query (codes "&")) ([], none)
