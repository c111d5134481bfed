-- ===== src/Api/Subscope/Rows.antt =====
-- The rows of values with distinct, clean keys: they are in order, and clean.
use pmap.Base.{
  ◌≡◌, true, false, none, List, [], ◌∷◌, ◌++◌, Bytes, arith, bytes_eq, ◌==◌, All, inl, inr,
  Bool-cases,
}
use pmap.Base.Dict.{lookup, insert, NodupKeys, insert-NodupKeys}
use pmap.Go.Strings.{contains}
use pmap.Go.Sort.{le, place, sort}
use pmap.Go.Sort.Ordered.{
  Ordered, Fresh, Distinct, Above, Increasing, sort-Ordered, sort-Distinct, Increasing-of_Ordered,
}
use pmap.Go.Url.{Values, or_empty, add}
use pmap.Go.Url.Pairs.{Pair, Clean, CleanPair, collect}
use pmap.Api.Subscope.{keys}
use pmap.Api.Subscope.Groups.{InOrder, tagged}
use pmap.Api.Subscope.Collected.{rows}

-- The first pair's key is above `k`.
abbrev StartsAbove : Bytes → List Pair → Type 0
StartsAbove k [] = Unit
StartsAbove k ((j, _) ∷ l) = (le k j ≡ true) × ((k == j) ≡ false)

StartsAbove-tagged :
    (k j : Bytes) (ws : List Bytes) (l : List Pair)
    → le k j ≡ true
    → (k == j) ≡ false
    → StartsAbove k l
    → StartsAbove k (tagged j ws ++ l)
StartsAbove-tagged k j [] l low ne h = h
StartsAbove-tagged k j (w ∷ ws) l low ne h = (low, ne)

rows-StartsAbove :
    (k : Bytes) (ks : List Bytes) (q : Values) → Above k ks → StartsAbove k (rows ks q)
rows-StartsAbove k [] q h = tt
rows-StartsAbove k (j ∷ ks) q ((low, ne), h) =
    StartsAbove-tagged k j (sort (or_empty (lookup j q))) (rows ks q) low ne
      (rows-StartsAbove k ks q h)

tagged-InOrder :
    (k : Bytes) (vs : List Bytes) (l : List Pair)
    → Ordered vs
    → StartsAbove k l
    → InOrder l
    → InOrder (tagged k vs ++ l)
tagged-InOrder k [] l ordered starts h = h
tagged-InOrder k (v ∷ []) [] ordered starts h = tt
tagged-InOrder k (v ∷ []) ((j, w) ∷ l) ordered (low, ne) h = (ground arith, h)
tagged-InOrder k (v ∷ w ∷ vs) l (first, ordered) starts h =
    (ground arith, tagged-InOrder k (w ∷ vs) l ordered starts h)

pub rows-InOrder : (ks : List Bytes) (q : Values) → Increasing ks → InOrder (rows ks q)
rows-InOrder [] q h = tt
rows-InOrder (k ∷ ks) q (above, h) =
    tagged-InOrder k (sort (or_empty (lookup k q))) (rows ks q)
      (sort-Ordered (or_empty (lookup k q))) (rows-StartsAbove k ks q above) (rows-InOrder ks q h)

pub lookup-Fresh : (k : Bytes) (d : Values) → lookup k d ≡ none → Fresh k (keys d)
unfolding lookup
lookup-Fresh k [] h = tt
lookup-Fresh k ((j, v) ∷ d) h = ground (arith, lookup-Fresh k d)

pub keys-Distinct : (d : Values) → NodupKeys d → Distinct (keys d)
keys-Distinct [] h = tt
keys-Distinct ((k, v) ∷ d) (fresh, h) = (lookup-Fresh k d fresh, keys-Distinct d h)

collect-NodupKeys : (l : List Pair) (m : Values) → NodupKeys m → NodupKeys (collect l m)
unfolding add
collect-NodupKeys [] m h = h
collect-NodupKeys ((k, v) ∷ l) m h =
    collect-NodupKeys l (add k v m) (insert-NodupKeys k (or_empty (lookup k m) ++ v ∷ []) m h)

-- Whatever is collected, its rows are in order.
pub rows-collect-InOrder :
    (l : List Pair) → InOrder (rows (sort (keys (collect l []))) (collect l []))
rows-collect-InOrder l =
    let q = collect l [] in
    let distinct = keys-Distinct q (collect-NodupKeys l [] tt) in
    rows-InOrder (sort (keys q)) q (
      Increasing-of_Ordered (sort (keys q)) (sort-Ordered (keys q))
        (sort-Distinct (keys q) distinct))

module _ (P : Bytes → Type 0) where
  place-All : (s : Bytes) (l : List Bytes) → P s → All P l → All P (place s l)
  unfolding place
  place-All s [] p h = (p, tt)
  place-All s (t ∷ l) p (q, h) = elim (Bool-cases (le s t)) [
    | inl low ↦ rw low (p, (q, h))
    | inr high ↦ rw high (q, place-All s l p h)
  ]

  sort-All : (l : List Bytes) → All P l → All P (sort l)
  unfolding sort
  sort-All [] h = tt
  sort-All (s ∷ l) (p, h) = place-All s (sort l) p (sort-All l h)

  All-append : (l m : List Bytes) → All P l → All P m → All P (l ++ m)
  All-append [] m h k = k
  All-append (s ∷ l) m (p, h) k = (p, All-append l m h k)

abbrev CleanKey : Bytes → Type 0
CleanKey k = Clean k × (contains k b'=' ≡ false)

abbrev CleanValues : Values → Type 0
CleanValues [] = Unit
CleanValues ((k, vs) ∷ d) = CleanKey k × All Clean vs × CleanValues d

lookup-All : (k : Bytes) (d : Values) → CleanValues d → All Clean (or_empty (lookup k d))
unfolding lookup
lookup-All k [] h = tt
lookup-All k ((j, vs) ∷ d) (_, clean, h) = elim (Bool-cases (k == j)) [
  | inl same ↦ rw same clean
  | inr other ↦ rw other (lookup-All k d h)
]

insert-CleanValues :
    (k : Bytes) (vs : List Bytes) (d : Values)
    → CleanKey k
    → All Clean vs
    → CleanValues d
    → CleanValues (insert k vs d)
unfolding insert
insert-CleanValues k vs [] key clean h = (key, clean, tt)
insert-CleanValues k vs ((j, ws) ∷ d) key clean (other, rest, h) = elim (Bool-cases (k == j)) [
  | inl same ↦ rw same (key, clean, h)
  | inr differs ↦ rw differs (other, rest, insert-CleanValues k vs d key clean h)
]

collect-CleanValues :
    (l : List Pair) (m : Values) → All CleanPair l → CleanValues m → CleanValues (collect l m)
unfolding add
collect-CleanValues [] m h c = c
collect-CleanValues ((k, v) ∷ l) m ((ck, free, cv), h) c = collect-CleanValues l (add k v m) h (
    insert-CleanValues k (or_empty (lookup k m) ++ v ∷ []) m (ck, free)
      (All-append Clean (or_empty (lookup k m)) (v ∷ []) (lookup-All k m c) (cv, tt)) c)

keys-CleanKey : (d : Values) → CleanValues d → All CleanKey (keys d)
keys-CleanKey [] h = tt
keys-CleanKey ((k, vs) ∷ d) (key, _, h) = (key, keys-CleanKey d h)

tagged-CleanPair :
    (k : Bytes) (vs : List Bytes) (l : List Pair)
    → CleanKey k
    → All Clean vs
    → All CleanPair l
    → All CleanPair (tagged k vs ++ l)
tagged-CleanPair k [] l key h c = c
tagged-CleanPair k (v ∷ vs) l (ck, free) (cv, h) c =
    ((ck, free, cv), tagged-CleanPair k vs l (ck, free) h c)

rows-CleanPair :
    (ks : List Bytes) (q : Values) → All CleanKey ks → CleanValues q → All CleanPair (rows ks q)
rows-CleanPair [] q h c = tt
rows-CleanPair (k ∷ ks) q (key, h) c =
    tagged-CleanPair k (sort (or_empty (lookup k q))) (rows ks q) key
      (sort-All Clean (or_empty (lookup k q)) (lookup-All k q c)) (rows-CleanPair ks q h c)

-- The rows of collected clean pairs are clean.
pub rows-collect-CleanPair :
    (l : List Pair)
    → All CleanPair l
    → All CleanPair (rows (sort (keys (collect l []))) (collect l []))
rows-collect-CleanPair l h =
    let q = collect l [] in
    let clean = collect-CleanValues l [] h tt in
    rows-CleanPair (sort (keys q)) q (sort-All CleanKey (keys q) (keys-CleanKey q clean)) clean
