-- ===== src/Api/Subscope/Unique.antt =====
-- Pairs in the order of their keys, and of their values where the keys are equal: there is one such
-- order only.
use mathlib.Core.List.{Perm, Permᴰ}
use mathlib.Core.Logic.{∥∥₁_elim}
use pmap.Base.{
  ◌≡◌, refl, sym, ◌∙◌, ap, Bool, true, false, List, [], ◌∷◌, arith, bytes_eq, if◌then◌else◌,
}
use pmap.Go.Sort.Laws.{le_total, le_antisymm, le_trans}
use pmap.Go.Url.Pairs.{Pair}
use pmap.Api.Subscope.Groups.{pair_le, InOrder}

unfoldable le_of : Pair → Pair → Bool
le_of p q = pair_le p q

le_of_total : (p q : Pair) → le_of p q ≡ false → le_of q p ≡ true
unfolding le_of
le_of_total (k, v) (j, w) h = ground (arith, le_total k j, le_total v w)

le_of_antisymm : (p q : Pair) → le_of p q ≡ true → le_of q p ≡ true → p ≡ q
unfolding le_of
le_of_antisymm (k, v) (j, w) h i = ground (arith, le_antisymm k j, le_antisymm v w)

le_of_trans : (p q r : Pair) → le_of p q ≡ true → le_of q r ≡ true → le_of p r ≡ true
unfolding le_of
le_of_trans (k, v) (j, w) (i, u) h h' =
    ground (arith, le_trans k j i, le_trans v w u, le_antisymm k j, le_antisymm j k)

-- An insertion sort.
unfoldable put : Pair → List Pair → List Pair
put p [] = p ∷ []
put p (q ∷ l) = if le_of p q then p ∷ q ∷ l else q ∷ put p l

unfoldable arranged : List Pair → List Pair
arranged [] = []
arranged (p ∷ l) = put p (arranged l)

put-put : (p q : Pair) (l : List Pair) → put p (put q l) ≡ put q (put p l)
unfolding put
put-put p q [] = ground (arith, le_of_antisymm p q, le_of_total p q)
put-put p q (r ∷ l) = ground (
  arith,
  put-put p q l,
  le_of_antisymm p q,
  le_of_total p q,
  le_of_trans p q r,
  le_of_trans q p r,
  le_of_total p r,
  le_of_total q r,
)

Pair-list_set : IsSet (List Pair)
Pair-list_set = hlevel

arranged-eq_of_permᴰ : {l m : List Pair} → Permᴰ l m → arranged l ≡ arranged m
unfolding arranged
arranged-eq_of_permᴰ Permᴰ.nil = refl
arranged-eq_of_permᴰ (Permᴰ.cons e p) = let ih = arranged-eq_of_permᴰ p in cc
arranged-eq_of_permᴰ (Permᴰ.swap {a} {b} {l} e d) = rw (e, d) (put-put _ _ (arranged l))
arranged-eq_of_permᴰ (Permᴰ.trans p q) = arranged-eq_of_permᴰ p ∙ arranged-eq_of_permᴰ q

put_head : (p : Pair) (l : List Pair) → InOrder (p ∷ l) → put p l ≡ p ∷ l
unfolding put le_of
put_head p [] h = refl
put_head p (q ∷ l) (first, h) = rw first refl

arranged_of_InOrder : (l : List Pair) → InOrder l → arranged l ≡ l
unfolding arranged
arranged_of_InOrder [] h = refl
arranged_of_InOrder (p ∷ []) h = unfold put in refl
arranged_of_InOrder (p ∷ q ∷ l) (first, h) =
    ap (put p) (arranged_of_InOrder (q ∷ l) h) ∙ put_head p (q ∷ l) (first, h)

-- Pairs in order are the same list, when they are the same pairs.
pub InOrder-unique : {l m : List Pair} → InOrder l → InOrder m → Perm l m → l ≡ m
InOrder-unique {l} {m} h k p =
    sym (arranged_of_InOrder l h)
    ∙ ∥∥₁_elim p (Pair-list_set (arranged l) (arranged m)) arranged-eq_of_permᴰ
    ∙ arranged_of_InOrder m k
