-- ===== src/Base/Lists.antt =====
-- Slices: lengths, prefixes and suffixes measured by native numbers, and predicates on all items.
use Prim.Native.Nat.{ℕ, zero, suc, ◌+◌, ◌≤◌, min}
use mathlib.Core.Path.{◌≡◌, refl, ap}
use mathlib.Core.List.{List, [], ◌∷◌, ◌++◌}
use native.Mathlib.Omega.{arith}

module _ {ℓ} {A : Type ℓ} where
  abbrev pub length : List A → ℕ
  length [] = 0
  length (x ∷ xs) = suc (length xs)

  -- `s[:n]`
  unfoldable pub take : ℕ → List A → List A
  take (suc n) (x ∷ xs) = x ∷ take n xs
  take _ _ = []

  -- `s[n:]`
  unfoldable pub drop : ℕ → List A → List A
  drop (suc n) (x ∷ xs) = drop n xs
  drop _ l = l

  pub length-append : (xs ys : List A) → length (xs ++ ys) ≡ length xs + length ys
  length-append [] ys = omega arith
  length-append (x ∷ xs) ys = omega (arith, length-append xs ys)

  pub take-append-drop : (n : ℕ) (l : List A) → take n l ++ drop n l ≡ l
  unfolding take drop
  take-append-drop (suc n) (x ∷ xs) = ap (◌∷◌ x) (take-append-drop n xs)
  take-append-drop _ _ = refl

  pub length-take : (n : ℕ) (l : List A) → length (take n l) ≡ min n (length l)
  unfolding take
  length-take (suc n) (x ∷ xs) = omega (arith, length-take n xs)
  length-take _ _ = omega arith

  pub take_all : (n : ℕ) (l : List A) → length l ≤ n → take n l ≡ l
  unfolding take
  take_all zero [] h = refl
  take_all (suc n) [] h = refl
  take_all zero (x ∷ xs) h = absurd (omega arith)
  take_all (suc n) (x ∷ xs) h = ap (◌∷◌ x) (take_all n xs (omega arith))

module _ {ℓ κ} {A : Type ℓ} (P : A → Type κ) where
  abbrev pub All : List A → Type κ
  All [] = Unit
  All (x ∷ xs) = P x × All xs

  pub All-append : (xs ys : List A) → All xs → All ys → All (xs ++ ys)
  All-append [] ys _ hy = hy
  All-append (x ∷ xs) ys (px, hx) hy = (px, All-append xs ys hx hy)
