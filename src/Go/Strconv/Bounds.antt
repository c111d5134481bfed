-- ===== src/Go/Strconv/Bounds.antt =====
-- A number that `ParseInt` returns is an int64, and it is the number that the digits spell.
use pmap.Base.{
  ℕ, zero, suc, ◌+◌, ◌-◌, ◌*◌, ◌^◌, ◌≤◌, ◌<◌, ◌≡◌, ◌≢◌, refl, ◌↔◌, Bool, true, false, Option, none,
  some, [], ◌∷◌, Bytes, arith, ltb, leb, ◌==◌, nat_eq, Bool-cases, inl, inr,
}
use pmap.Go.Strconv.{ℤ, pos, negsuc, max_uint64, scan, parse_uint, signed, parse_int}

abbrev pub IsInt64 : ℤ → Type 0
IsInt64 (pos n) = n < 2 ^ 63
IsInt64 (negsuc n) = n < 2 ^ 63

-- A text of decimal digits alone.
abbrev pub OnlyDigits : Bytes → Type 0
OnlyDigits [] = Unit
OnlyDigits (digit ∷ rest) = ((b'0' ≤ digit) × (digit ≤ b'9')) × OnlyDigits rest

-- The number that a text of digits spells behind the digits of `n`, whatever its size.
abbrev pub spelled : ℕ → Bytes → ℕ
spelled n [] = n
spelled n (digit ∷ rest) = spelled (n * 10 + (digit - b'0')) rest

abbrev AllInt64 : Option ℤ → Type 0
AllInt64 none = Unit
AllInt64 (some z) = IsInt64 z

signed-AllInt64 : (negative : Bool) (n : Option ℕ) → AllInt64 (signed negative n)
unfolding signed
signed-AllInt64 negative none = tt
signed-AllInt64 false (some n) = elim (Bool-cases (leb (2 ^ 63) n)) [
  | inl large ↦ rw large tt
  | inr small ↦ rw small (ground arith)
]
signed-AllInt64 true (some zero) = omega arith
signed-AllInt64 true (some (suc n)) = elim (Bool-cases (ltb (2 ^ 63) (suc n))) [
  | inl large ↦ rw large tt
  | inr small ↦ rw small (ground arith)
]

parse_int-AllInt64 : (s : Bytes) → AllInt64 (parse_int s)
unfolding parse_int
parse_int-AllInt64 [] = tt
parse_int-AllInt64 (c ∷ s) = elim (Bool-cases (c == b'+')) [
  | inl plus ↦ rw plus (signed-AllInt64 false (parse_uint s))
  | inr other ↦ elim (Bool-cases (c == b'-')) [
    | inl minus ↦ rw (other, minus) (signed-AllInt64 true (parse_uint s))
    | inr digit ↦ rw (other, digit) (signed-AllInt64 false (parse_uint (c ∷ s)))
  ]
]

-- What is returned is an int64.
pub parse_int-IsInt64 : (s : Bytes) (z : ℤ) → parse_int s ≡ some z → IsInt64 z
parse_int-IsInt64 s z h = let k = parse_int-AllInt64 s in rw h at k

spelled-ge : (s : Bytes) (n : ℕ) → n ≤ spelled n s
spelled-ge [] n = omega arith
spelled-ge (digit ∷ rest) n = omega (arith, spelled-ge rest (n * 10 + (digit - b'0')))

-- The overflow tests refuse exactly the texts of digits that spell too large a number.
pub scan-some_iff :
    (s : Bytes) (n r : ℕ)
    → n ≤ max_uint64
    → (scan s n ≡ some r) ↔ (OnlyDigits s × (spelled n s ≡ r) × (r ≤ max_uint64))
unfolding scan
scan-some_iff [] n r fits = (λ h. (tt, ground arith, ground arith), λ (_, same, _). ground arith)
scan-some_iff (digit ∷ rest) n r fits =
    let next = n * 10 + (digit - b'0') in
    let ih = scan-some_iff rest next r in
    (
      λ h. ground (arith, λ (k : next ≤ max_uint64). (ih k).0),
      λ ((hd, tl), same, small).
          ground (arith, spelled-ge rest next, λ (k : next ≤ max_uint64). (ih k).1),
    )

-- Digits that spell an int64 are read as the number that they spell.
pub parse_int-OnlyDigits :
    (s : Bytes)
    → s ≢ []
    → OnlyDigits s
    → spelled 0 s < 2 ^ 63
    → parse_int s ≡ some (pos (spelled 0 s))
unfolding parse_int parse_uint signed
parse_int-OnlyDigits [] full _ small = absurd (full refl)
parse_int-OnlyDigits (digit ∷ rest) full all small =
    let (_, from) = scan-some_iff (digit ∷ rest) 0 (spelled 0 (digit ∷ rest)) (omega arith) in
    let read = from (all, refl, omega arith) in let ((low, high), _) = all in ground (arith, read)
