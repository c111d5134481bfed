-- ===== src/Api/Subscope/Groups.antt =====
-- Pairs in order, grouped by their key: the values of such pairs give back the pairs.
use pmap.Base.{
  ◌≡◌, refl, Bool, true, false, List, [], ◌∷◌, ◌++◌, Bytes, arith, bytes_eq, ◌==◌, if◌then◌else◌,
}
use pmap.Go.Sort.{le}
use pmap.Go.Sort.Laws.{le_trans, le_antisymm}
use pmap.Go.Sort.Ordered.{Ordered, Above, Increasing}
use pmap.Go.Url.{Values}
use pmap.Go.Url.Pairs.{Pair}
use pmap.Api.Subscope.{keys}

-- Pairs in the order of their keys, and of their values where the keys are equal.
abbrev pub pair_le : Pair → Pair → Bool
pair_le (k, v) (j, w) = if k == j then le v w else le k j

abbrev pub InOrder : List Pair → Type 0
InOrder [] = Unit
InOrder (p ∷ []) = Unit
InOrder (p ∷ q ∷ l) = (pair_le p q ≡ true) × InOrder (q ∷ l)

-- A key with its first value and its others.
abbrev pub Group : Type 0
Group = Bytes × (Bytes × List Bytes)

abbrev pub tagged : Bytes → List Bytes → List Pair
tagged k [] = []
tagged k (v ∷ vs) = (k, v) ∷ tagged k vs

abbrev pub ungroup : List Group → List Pair
ungroup [] = []
ungroup ((k, (v, vs)) ∷ g) = (k, v) ∷ (tagged k vs ++ ungroup g)

abbrev pub values : List Group → Values
values [] = []
values ((k, (v, vs)) ∷ g) = (k, v ∷ vs) ∷ values g

-- The other values of the key `k` in front, and the groups behind.
abbrev pub group_from : Bytes → List Pair → List Bytes × List Group
group_from k [] = ([], [])
group_from k ((j, w) ∷ l) =
    let rest = group_from j l in
    if k == j then (w ∷ rest.0, rest.1) else ([], (j, (w, rest.0)) ∷ rest.1)

pub ungroup-group_from :
    (k : Bytes) (l : List Pair) → tagged k (group_from k l).0 ++ ungroup (group_from k l).1 ≡ l
ungroup-group_from k [] = refl
ungroup-group_from k ((j, w) ∷ l) = ground (arith, ungroup-group_from j l)

-- The next key is above `k`, if there is one.
abbrev Below : Bytes → List Group → Type 0
Below k [] = Unit
Below k ((j, _) ∷ g) = (le k j ≡ true) × ((k == j) ≡ false)

abbrev pub Grouped : List Group → Type 0
Grouped [] = Unit
Grouped ((k, (v, vs)) ∷ g) = Ordered (v ∷ vs) × Below k g × Grouped g

pub group_from-Grouped :
    (k v : Bytes) (l : List Pair)
    → InOrder ((k, v) ∷ l)
    → Grouped ((k, (v, (group_from k l).0)) ∷ (group_from k l).1)
group_from-Grouped k v [] h = (tt, tt, tt)
group_from-Grouped k v ((j, w) ∷ l) (first, h) = ground (arith, group_from-Grouped j w l h)

Above-trans :
    (k j : Bytes) (l : List Bytes) → le k j ≡ true → (k == j) ≡ false → Above j l → Above k l
Above-trans k j [] first ne h = tt
Above-trans k j (i ∷ l) first ne ((next, _), h) =
    let low = le_trans k j i first next in
    let anti = le_antisymm j k in
    ((low, ground (arith, le_antisymm j k)), Above-trans k j l first ne h)

pub Grouped-Increasing : (g : List Group) → Grouped g → Increasing (keys (values g))
Grouped-Increasing [] h = tt
Grouped-Increasing ((k, _) ∷ []) h = (tt, tt)
Grouped-Increasing ((k, _) ∷ (j, w) ∷ g) (_, (first, ne), h) =
    let (above, rest) = Grouped-Increasing ((j, w) ∷ g) h in
    (((first, ne), Above-trans k j _ first ne above), (above, rest))

pub Ordered-of_Increasing : (l : List Bytes) → Increasing l → Ordered l
Ordered-of_Increasing [] h = tt
Ordered-of_Increasing (k ∷ []) h = tt
Ordered-of_Increasing (k ∷ j ∷ l) (((first, _), _), h) = (first, Ordered-of_Increasing (j ∷ l) h)

-- Values are collected at the end, where their key is new or the last one.
