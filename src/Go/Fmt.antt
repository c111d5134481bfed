-- ===== src/Go/Fmt.antt =====
-- Go's `%d` for a length.
use pmap.Base.{
  ℕ, zero, suc, ◌+◌, ◌/◌, ◌%◌, ◌<◌, ◌≡◌, [], ◌∷◌, Bytes, arith, ◌==◌, nat_eq, if◌then◌else◌,
}
use pmap.Go.Strconv.Bounds.{spelled}

-- The digits of `n` in front of `acc`, with one digit for each unit of fuel.
unfoldable pub digits : ℕ → ℕ → Bytes → Bytes
digits zero n acc = acc
digits (suc fuel) n acc =
    let rest = digits fuel (n / 10) ((b'0' + n % 10) ∷ acc) in
    if n / 10 == 0 then (b'0' + n % 10) ∷ acc else rest

-- A number has fewer digits than `n + 1`.
unfoldable pub decimal : ℕ → Bytes
unfolding digits
decimal n = digits (suc n) n []

spelled-digits :
    (fuel n : ℕ) (acc : Bytes) → n < fuel → spelled 0 (digits fuel n acc) ≡ spelled n acc
unfolding digits
spelled-digits zero n acc h = absurd (omega arith)
spelled-digits (suc fuel) n acc h =
    ground (arith, spelled-digits fuel (n / 10) ((b'0' + n % 10) ∷ acc))

-- The fuel is enough: the digits spell the number.
pub spelled-decimal : (n : ℕ) → spelled 0 (decimal n) ≡ n
unfolding decimal
spelled-decimal n = spelled-digits (suc n) n [] (omega arith)
