-- ===== src/Go/Sort/Ordered.antt =====
-- A sorted list is in order, and sorting a list in order changes nothing.
use pmap.Base.{◌≡◌, refl, ap, ◌∙◌, true, false, List, [], ◌∷◌, arith, Bytes, bytes_eq, ◌==◌, All}
use pmap.Go.Sort.{le, place, sort}
use pmap.Go.Sort.Laws.{le_total, le_trans}

abbrev pub Ordered : List Bytes → Type 0
Ordered [] = Unit
Ordered (s ∷ []) = Unit
Ordered (s ∷ t ∷ l) = (le s t ≡ true) × Ordered (t ∷ l)

-- No text of the list is `k`.
abbrev pub Fresh : Bytes → List Bytes → Type 0
Fresh k = All (λ j. (k == j) ≡ false)

abbrev pub Distinct : List Bytes → Type 0
Distinct [] = Unit
Distinct (k ∷ l) = Fresh k l × Distinct l

-- Every text is above the ones before it.
abbrev pub Above : Bytes → List Bytes → Type 0
Above k = All (λ j. (le k j ≡ true) × ((k == j) ≡ false))

abbrev pub Increasing : List Bytes → Type 0
Increasing [] = Unit
Increasing (k ∷ l) = Above k l × Increasing l

place-Ordered : (s : Bytes) (l : List Bytes) → Ordered l → Ordered (place s l)
unfolding place
place-Ordered s [] h = tt
place-Ordered s (t ∷ []) h = ground (arith, le_total s t)
place-Ordered s (t ∷ u ∷ l) (first, h) =
    ground (arith, place-Ordered s (u ∷ l) h, le_total s t, le_total s u)

pub sort-Ordered : (l : List Bytes) → Ordered (sort l)
unfolding sort
sort-Ordered [] = tt
sort-Ordered (s ∷ l) = place-Ordered s (sort l) (sort-Ordered l)

place_head : (s : Bytes) (l : List Bytes) → Ordered (s ∷ l) → place s l ≡ s ∷ l
unfolding place
place_head s [] h = refl
place_head s (t ∷ l) h = ground arith

pub sort_of_Ordered : (l : List Bytes) → Ordered l → sort l ≡ l
unfolding sort
sort_of_Ordered [] h = refl
sort_of_Ordered (s ∷ []) h = unfold place in refl
sort_of_Ordered (s ∷ t ∷ l) (first, h) =
    ap (place s) (sort_of_Ordered (t ∷ l) h) ∙ place_head s (t ∷ l) (first, h)

place-Fresh : (k s : Bytes) (l : List Bytes) → (k == s) ≡ false → Fresh k l → Fresh k (place s l)
unfolding place
place-Fresh k s [] ne h = (ne, tt)
place-Fresh k s (t ∷ l) ne (other, h) = ground (arith, place-Fresh k s l ne h)

sort-Fresh : (k : Bytes) (l : List Bytes) → Fresh k l → Fresh k (sort l)
unfolding sort
sort-Fresh k [] h = tt
sort-Fresh k (s ∷ l) (ne, h) = place-Fresh k s (sort l) ne (sort-Fresh k l h)

place-Distinct : (s : Bytes) (l : List Bytes) → Fresh s l → Distinct l → Distinct (place s l)
unfolding place
place-Distinct s [] f h = (tt, tt)
place-Distinct s (t ∷ l) (ne, f) (g, h) =
    let other : (t == s) ≡ false = ground arith in
    ground (arith, place-Distinct s l f h, place-Fresh t s l other g)

pub sort-Distinct : (l : List Bytes) → Distinct l → Distinct (sort l)
unfolding sort
sort-Distinct [] h = tt
sort-Distinct (s ∷ l) (f, h) = place-Distinct s (sort l) (sort-Fresh s l f) (sort-Distinct l h)

Above-of_Fresh : (k : Bytes) (l : List Bytes) → Ordered (k ∷ l) → Fresh k l → Above k l
Above-of_Fresh k [] h f = tt
Above-of_Fresh k (t ∷ []) (first, _) (ne, _) = ((first, ne), tt)
Above-of_Fresh k (t ∷ u ∷ l) (first, (next, h)) (ne, f) =
    ((first, ne), Above-of_Fresh k (u ∷ l) (le_trans k t u first next, h) f)

Ordered-tail : (k : Bytes) (l : List Bytes) → Ordered (k ∷ l) → Ordered l
Ordered-tail k [] h = tt
Ordered-tail k (t ∷ l) (_, h) = h

-- Distinct texts in order are increasing.
pub Increasing-of_Ordered : (l : List Bytes) → Ordered l → Distinct l → Increasing l
Increasing-of_Ordered [] h d = tt
Increasing-of_Ordered (k ∷ l) h (f, d) =
    (Above-of_Fresh k l h f, Increasing-of_Ordered l (Ordered-tail k l h) d)
