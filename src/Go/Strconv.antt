-- ===== src/Go/Strconv.antt =====
-- Go's `strconv.ParseInt(s, 10, 64)`.
pub mod Bounds
use pmap.Base.{
  ℕ, zero, suc, ◌+◌, ◌-◌, ◌*◌, ◌%◌, ◌^◌, ◌/◌, Bool, true, false, ◌||◌, Option, none, some, [], ◌∷◌,
  Bytes, ltb, leb, ◌==◌, nat_eq, if◌then◌else◌,
}

-- `negsuc n` is -(n + 1).
pub data ℤ : Type 0 where
  pos : ℕ → ℤ
  negsuc : ℕ → ℤ

unfoldable pub opposite : ℕ → ℤ
opposite zero = pos 0
opposite (suc n) = negsuc n

abbrev pub max_uint64 : ℕ
max_uint64 = 2 ^ 64 - 1

-- The loop of `ParseUint` over the bytes that are left, with its two tests for overflow.
unfoldable pub scan : Bytes → ℕ → Option ℕ
scan [] n = some n
scan (c ∷ s) n =
    let n1 = (n * 10 + (c - b'0')) % 2 ^ 64 in
    if ltb c b'0' || ltb b'9' c
    then none
    else if leb (max_uint64 / 10 + 1) n
    then none
    else if ltb n1 (n * 10)
    then none
    else scan s n1

-- `ParseUint`; `none` is an error.
unfoldable pub parse_uint : Bytes → Option ℕ
unfolding scan
parse_uint [] = none
parse_uint (c ∷ s) = scan (c ∷ s) 0

-- The range of an int64.
unfoldable pub signed : Bool → Option ℕ → Option ℤ
unfolding opposite
signed negative none = none
signed false (some n) = if leb (2 ^ 63) n then none else some (pos n)
signed true (some n) = if ltb (2 ^ 63) n then none else some (opposite n)

unfoldable pub parse_int : Bytes → Option ℤ
unfolding parse_uint signed
parse_int [] = none
parse_int (c ∷ s) =
    if c == b'+'
    then signed false (parse_uint s)
    else if c == b'-'
    then signed true (parse_uint s)
    else signed false (parse_uint (c ∷ s))
