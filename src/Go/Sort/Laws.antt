-- ===== src/Go/Sort/Laws.antt =====
-- The order on texts is total, and a sort does not depend on the order of its input.
use mathlib.Core.List.{Perm, Permᴰ}
use mathlib.Core.Logic.{∥∥₁_elim}
use pmap.Base.{◌≡◌, refl, ◌∙◌, true, false, List, [], ◌∷◌, arith, Bytes, bytes_eq, nat_eq}
use pmap.Go.Sort.{le, place, sort}

pub le_refl : (s : Bytes) → le s s ≡ true
unfolding le
le_refl [] = refl
le_refl (a ∷ s) = ground (arith, le_refl s)

pub le_total : (s t : Bytes) → le s t ≡ false → le t s ≡ true
unfolding le
le_total [] t h = absurd (cc)
le_total (a ∷ s) [] h = refl
le_total (a ∷ s) (b ∷ t) h = ground (arith, le_total s t)

pub le_antisymm : (s t : Bytes) → le s t ≡ true → le t s ≡ true → s ≡ t
unfolding le
le_antisymm [] [] h k = refl
le_antisymm [] (b ∷ t) h k = absurd (cc)
le_antisymm (a ∷ s) [] h k = absurd (cc)
le_antisymm (a ∷ s) (b ∷ t) h k = ground (arith, le_antisymm s t)

pub le_trans : (s t u : Bytes) → le s t ≡ true → le t u ≡ true → le s u ≡ true
unfolding le
le_trans [] t u h k = refl
le_trans (a ∷ s) [] u h k = absurd (cc)
le_trans (a ∷ s) (b ∷ t) [] h k = absurd (cc)
le_trans (a ∷ s) (b ∷ t) (c ∷ u) h k = ground (arith, le_trans s t u)

place-place : (s t : Bytes) (l : List Bytes) → place s (place t l) ≡ place t (place s l)
unfolding place
place-place s t [] = ground (arith, le_antisymm s t, le_total s t)
place-place s t (u ∷ l) = ground (
  arith,
  place-place s t l,
  le_antisymm s t,
  le_total s t,
  le_trans s t u,
  le_trans t s u,
  le_total s u,
  le_total t u,
)

Bytes-list_set : IsSet (List Bytes)
Bytes-list_set = hlevel

sort-eq_of_permᴰ : {l m : List Bytes} → Permᴰ l m → sort l ≡ sort m
unfolding sort
sort-eq_of_permᴰ Permᴰ.nil = refl
sort-eq_of_permᴰ (Permᴰ.cons e p) = let ih = sort-eq_of_permᴰ p in cc
sort-eq_of_permᴰ (Permᴰ.swap {a} {b} {l} e d) = rw (e, d) (place-place _ _ (sort l))
sort-eq_of_permᴰ (Permᴰ.trans p q) = sort-eq_of_permᴰ p ∙ sort-eq_of_permᴰ q

-- A sort gives the same list for every order of its input.
pub sort-eq_of_perm : {l m : List Bytes} → Perm l m → sort l ≡ sort m
sort-eq_of_perm {l} {m} p = ∥∥₁_elim p (Bytes-list_set (sort l) (sort m)) sort-eq_of_permᴰ
