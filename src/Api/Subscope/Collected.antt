-- ===== src/Api/Subscope/Collected.antt =====
-- The values of pairs in order: their rows are the pairs.
use mathlib.Core.List.{append_assoc, append-nil}
use pmap.Base.{
  ◌≡◌, refl, ap, ◌∙◌, sym, none, some, List, [], ◌∷◌, ◌++◌, Bytes, codes, arith, bytes_eq, All,
}
use pmap.Base.Dict.{lookup, insert}
use pmap.Go.Sort.{sort}
use pmap.Go.Sort.Ordered.{Above, Increasing, sort_of_Ordered}
use pmap.Go.Url.{Values, or_empty, add}
use pmap.Go.Url.Pairs.{Pair, render, renders, collect}
use pmap.Api.Subscope.{pairs_of, pairs, keys}
use pmap.Api.Subscope.Groups.{
  InOrder, tagged, Group, ungroup, values, group_from, Grouped, ungroup-group_from,
  group_from-Grouped, Grouped-Increasing, Ordered-of_Increasing,
}

insert_new :
    (k : Bytes) (vs : List Bytes) (m : Values)
    → lookup k m ≡ none
    → insert k vs m ≡ m ++ ((k, vs) ∷ [])
unfolding insert lookup
insert_new k vs [] h = refl
insert_new k vs ((j, w) ∷ m) h = ground (arith, insert_new k vs m)

lookup_last :
    (k : Bytes) (vs : List Bytes) (m g : Values)
    → lookup k m ≡ none
    → lookup k (m ++ ((k, vs) ∷ g)) ≡ some vs
unfolding lookup
lookup_last k vs [] g h = ground arith
lookup_last k vs ((j, w) ∷ m) g h = ground (arith, lookup_last k vs m g)

insert_last :
    (k : Bytes) (vs ws : List Bytes) (m : Values)
    → lookup k m ≡ none
    → insert k ws (m ++ ((k, vs) ∷ [])) ≡ m ++ ((k, ws) ∷ [])
unfolding insert lookup
insert_last k vs ws [] h = ground arith
insert_last k vs ws ((j, w) ∷ m) h = ground (arith, insert_last k vs ws m)

lookup-append :
    (k : Bytes) (m d : Values) → lookup k m ≡ none → lookup k d ≡ none → lookup k (m ++ d) ≡ none
unfolding lookup
lookup-append k [] d h e = e
lookup-append k ((j, w) ∷ m) d h e = ground (arith, lookup-append k m d)

-- Values are collected at the end, where their key is new or the last one.
add_new : (k v : Bytes) (m : Values) → lookup k m ≡ none → add k v m ≡ m ++ ((k, v ∷ []) ∷ [])
unfolding add
add_new k v m h = ap (λ o. insert k (or_empty o ++ v ∷ []) m) h ∙ insert_new k (v ∷ []) m h

add_last :
    (k v : Bytes) (vs : List Bytes) (m : Values)
    → lookup k m ≡ none
    → add k v (m ++ ((k, vs) ∷ [])) ≡ m ++ ((k, vs ++ v ∷ []) ∷ [])
unfolding add
add_last k v vs m h =
    ap (λ o. insert k (or_empty o ++ v ∷ []) (m ++ ((k, vs) ∷ []))) (lookup_last k vs m [] h)
    ∙ insert_last k vs (vs ++ v ∷ []) m h

collect-tagged :
    (k : Bytes) (us vs : List Bytes) (rest : List Pair) (m : Values)
    → lookup k m ≡ none
    → collect (tagged k vs ++ rest) (m ++ ((k, us) ∷ [])) ≡ collect rest (m ++ ((k, us ++ vs) ∷ []))
collect-tagged k us [] rest m h =
    ap (λ ws. collect rest (m ++ ((k, ws) ∷ []))) (sym (append-nil us))
collect-tagged k us (v ∷ vs) rest m h =
    ap (collect (tagged k vs ++ rest)) (add_last k v us m h)
    ∙ (collect-tagged k (us ++ v ∷ []) vs rest m h
        ∙ ap (λ ws. collect rest (m ++ ((k, ws) ∷ []))) (append_assoc us (v ∷ []) vs))

-- The keys of the groups are new to the map.
abbrev New : List Bytes → Values → Type 0
New ks m = All (λ k. lookup k m ≡ none) ks

New-append :
    (k : Bytes) (vs : List Bytes) (ks : List Bytes) (m : Values)
    → New ks m
    → Above k ks
    → New ks (m ++ ((k, vs) ∷ []))
unfolding lookup
New-append k vs [] m h a = tt
New-append k vs (j ∷ ks) m (h, hs) ((_, ne), a) =
    (lookup-append j m ((k, vs) ∷ []) h (ground arith), New-append k vs ks m hs a)

collect-ungroup :
    (g : List Group) (m : Values)
    → Increasing (keys (values g))
    → New (keys (values g)) m
    → collect (ungroup g) m ≡ m ++ values g
collect-ungroup [] m inc new = sym (append-nil m)
collect-ungroup ((k, (v, vs)) ∷ g) m (above, inc) (fresh, new) =
    ap (collect (tagged k vs ++ ungroup g)) (add_new k v m fresh)
    ∙ (collect-tagged k (v ∷ []) vs (ungroup g) m fresh
        ∙ (collect-ungroup g (m ++ ((k, v ∷ vs) ∷ [])) inc (New-append k (v ∷ vs) _ m new above)
            ∙ append_assoc m ((k, v ∷ vs) ∷ []) (values g)))

-- The pairs at the keys, each key's values in order.
abbrev pub rows : List Bytes → Values → List Pair
rows [] q = []
rows (k ∷ ks) q = tagged k (sort (or_empty (lookup k q))) ++ rows ks q

pairs_of-renders : (k : Bytes) (vs : List Bytes) → pairs_of k vs ≡ renders (tagged k vs)
unfolding pairs_of
pairs_of-renders k [] = refl
pairs_of-renders k (v ∷ vs) = ap (λ l. (k ++ (codes "=" ++ v)) ∷ l) (pairs_of-renders k vs)

renders-append : (l m : List Pair) → renders (l ++ m) ≡ renders l ++ renders m
renders-append [] m = refl
renders-append (p ∷ l) m = ap (λ l'. render p ∷ l') (renders-append l m)

pub pairs-renders : (ks : List Bytes) (q : Values) → pairs ks q ≡ renders (rows ks q)
unfolding pairs
pairs-renders [] q = refl
pairs-renders (k ∷ ks) q =
    let vs = sort (or_empty (lookup k q)) in
    rw (pairs_of-renders k vs, pairs-renders ks q) (sym (renders-append (tagged k vs) (rows ks q)))

rows-ungroup :
    (g : List Group) (m : Values)
    → Grouped g
    → Increasing (keys (values g))
    → New (keys (values g)) m
    → rows (keys (values g)) (m ++ values g) ≡ ungroup g
rows-ungroup [] m h inc new = refl
rows-ungroup ((k, (v, vs)) ∷ g) m (ordered, _, h) (above, inc) (fresh, new) =
    let ks = keys (values g) in
    let here =
      ap (λ o. tagged k (sort (or_empty o))) (lookup_last k (v ∷ vs) m (values g) fresh)
      ∙ ap (tagged k) (sort_of_Ordered (v ∷ vs) ordered) in
    let behind =
      ap (rows ks) (sym (append_assoc m ((k, v ∷ vs) ∷ []) (values g)))
      ∙ rows-ungroup g (m ++ ((k, v ∷ vs) ∷ [])) h inc (New-append k (v ∷ vs) ks m new above) in
    ap (λ l. l ++ rows ks (m ++ ((k, v ∷ vs) ∷ values g))) here
    ∙ ap (λ l. (k, v) ∷ (tagged k vs ++ l)) behind

New-nil : (ks : List Bytes) → New ks []
unfolding lookup
New-nil [] = tt
New-nil (k ∷ ks) = (refl, New-nil ks)

-- Pairs in order are collected to values whose rows are the pairs.
pub rows_of_InOrder :
    (p : Pair) (l : List Pair)
    → InOrder (p ∷ l)
    → rows (sort (keys (collect (p ∷ l) []))) (collect (p ∷ l) []) ≡ p ∷ l
rows_of_InOrder (k, v) l h =
    let g = (k, (v, (group_from k l).0)) ∷ (group_from k l).1 in
    let grouped = group_from-Grouped k v l h in
    let inc = Grouped-Increasing g grouped in
    let flat = ap (λ l'. (k, v) ∷ l') (ungroup-group_from k l) in
    let new = New-nil (keys (values g)) in
    let collected = ap (λ l'. collect l' []) (sym flat) ∙ collect-ungroup g [] inc new in
    let sorted = sort_of_Ordered (keys (values g)) (Ordered-of_Increasing (keys (values g)) inc) in
    ap (λ q. rows (sort (keys q)) q) collected
    ∙ (ap (λ ks. rows ks (values g)) sorted ∙ (rows-ungroup g [] grouped inc new ∙ flat))
