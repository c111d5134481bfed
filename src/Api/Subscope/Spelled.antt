-- ===== src/Api/Subscope/Spelled.antt =====
-- Which queries `validateSubscope` accepts, by the pairs that they parse to.
use mathlib.Core.List.{Perm, Permᴰ, Perm-prop, perm_append_comm}
use mathlib.Core.Logic.{∥∥₁_elim}
use mathlib.Core.List.{append_assoc}
use mathlib.Core.List.Perm
use pmap.Base.{
  ◌≡◌, ◌↔◌, refl, sym, ◌∙◌, ap, Option, none, List, [], ◌∷◌, ◌++◌, Bytes, codes, arith, bytes_eq,
  ◌==◌, Bool-cases, inl, inr,
}
use pmap.Base.Dict.{lookup, NodupKeys, insert-NodupKeys}
use pmap.Errors.{Err}
use pmap.Go.Strings
use pmap.Go.Strings.{contains, split}
use pmap.Go.Sort.{le, place, sort}
use pmap.Go.Sort.Ordered.{Fresh, sort-Ordered, sort-Distinct, Increasing-of_Ordered}
use pmap.Go.Url.{
  Values, Unescaped, text, malformed, or_empty, add, add_unescaped, add_piece, add_pieces,
  parse_query,
}
use pmap.Go.Url.Pairs.{Pair}
use pmap.Api.Subscope.{keys, want_query, validate_query}
use pmap.Api.Subscope.Order.{compare_query-none_iff}
use pmap.Api.Subscope.Groups.{InOrder, tagged}
use pmap.Api.Subscope.Collected.{rows, pairs-renders}
use pmap.Api.Subscope.Rows.{rows-InOrder, lookup-Fresh, keys-Distinct}
use pmap.Api.Subscope.Sorted.{query_of}
use pmap.Api.Subscope.Unique.{InOrder-unique}

-- The pairs that the values hold, each key with each of its values.
abbrev pub entries : Values → List Pair
entries [] = []
entries ((k, vs) ∷ q) = tagged k vs ++ entries q

-- The text is `k1=v1&k2=v2&…` for just these pairs, in the order of their keys, and of their values
-- where the keys are equal.
abbrev pub Spelled : Bytes → Values → Type 0
Spelled raw q = (l : List Pair) × InOrder l × Perm l (entries q) × (query_of l ≡ raw)

Perm-place : (s : Bytes) (l : List Bytes) → Perm (place s l) (s ∷ l)
unfolding place
Perm-place s [] = Perm.refl (s ∷ [])
Perm-place s (t ∷ l) = elim (Bool-cases (le s t)) [
  | inl low ↦ rw low (Perm.refl (s ∷ t ∷ l))
  | inr high ↦ rw high (Perm.trans (Perm.cons t (Perm-place s l)) (Perm.swap s t l))
]

Perm-sort : (l : List Bytes) → Perm (sort l) l
unfolding sort
Perm-sort [] = Perm.nil
Perm-sort (s ∷ l) = Perm.trans (Perm-place s (sort l)) (Perm.cons s (Perm-sort l))

tagged-Permᴰ : (k : Bytes) {l m : List Bytes} → Permᴰ l m → Permᴰ (tagged k l) (tagged k m)
tagged-Permᴰ k Permᴰ.nil = Permᴰ.nil
tagged-Permᴰ k (Permᴰ.cons e p) = Permᴰ.cons (ap (λ v. (k, v)) e) (tagged-Permᴰ k p)
tagged-Permᴰ k (Permᴰ.swap e d) = Permᴰ.swap (ap (λ v. (k, v)) e) (ap (λ v. (k, v)) d)
tagged-Permᴰ k (Permᴰ.trans p q) = Permᴰ.trans (tagged-Permᴰ k p) (tagged-Permᴰ k q)

-- The values of a key, sorted or not.
tagged-Perm : (k : Bytes) (vs : List Bytes) → Perm (tagged k (sort vs)) (tagged k vs)
tagged-Perm k vs = ∥∥₁_elim (Perm-sort vs) Perm-prop (λ p. ∣ tagged-Permᴰ k p ∣₁)

exchange : (l m n : List Pair) → Perm (l ++ (m ++ n)) (m ++ (l ++ n))
exchange l m n =
    rw (sym (append_assoc l m n), sym (append_assoc m l n))
      (Perm.append_right n (perm_append_comm l m))

rows-Permᴰ : (q : Values) {l m : List Bytes} → Permᴰ l m → Perm (rows l q) (rows m q)
rows-Permᴰ q Permᴰ.nil = Perm.nil
rows-Permᴰ q (Permᴰ.cons e p) = rw e (Perm.append_left _ (rows-Permᴰ q p))
rows-Permᴰ q (Permᴰ.swap {a' = a} {b' = b} {l} e d) =
    let at : Bytes → List Pair = λ k. tagged k (sort (or_empty (lookup k q))) in
    rw (e, d) (exchange (at b) (at a) (rows l q))
rows-Permᴰ q (Permᴰ.trans p r) = Perm.trans (rows-Permᴰ q p) (rows-Permᴰ q r)

rows-skip :
    (k : Bytes) (vs : List Bytes) (d : Values) (ks : List Bytes)
    → Fresh k ks
    → rows ks ((k, vs) ∷ d) ≡ rows ks d
unfolding lookup
rows-skip k vs d [] h = refl
rows-skip k vs d (j ∷ ks) (ne, h) = ground (arith, rows-skip k vs d ks h)

lookup_here : (k : Bytes) (vs : List Bytes) (d : Values) → or_empty (lookup k ((k, vs) ∷ d)) ≡ vs
unfolding lookup
lookup_here k vs d = ground arith

rows-entries : (q : Values) → NodupKeys q → Perm (rows (keys q) q) (entries q)
rows-entries [] h = Perm.nil
rows-entries ((k, vs) ∷ d) (fresh, h) =
    rw (lookup_here k vs d, rows-skip k vs d (keys d) (lookup-Fresh k d fresh))
      (Perm.append (tagged-Perm k vs) (rows-entries d h))

module _ (q : Values) (nodup : NodupKeys q) where
  -- The pairs as the code arranges them.
  abbrev arranged_rows : List Pair
  arranged_rows = rows (sort (keys q)) q

  arranged_rows-Perm : Perm arranged_rows (entries q)
  arranged_rows-Perm =
      Perm.trans (∥∥₁_elim (Perm-sort (keys q)) Perm-prop (rows-Permᴰ q)) (rows-entries q nodup)

  arranged_rows-InOrder : InOrder arranged_rows
  arranged_rows-InOrder = rows-InOrder (sort (keys q)) q (
      Increasing-of_Ordered (sort (keys q)) (sort-Ordered (keys q))
        (sort-Distinct (keys q) (keys-Distinct q nodup)))

  want_query-Spelled_iff : (raw : Bytes) → (want_query (keys q) q ≡ raw) ↔ Spelled raw q
  unfolding want_query
  want_query-Spelled_iff raw =
      let want = ap (λ s. Strings.join s (codes "&")) (pairs-renders (sort (keys q)) q) in
      (
        λ h. (arranged_rows, arranged_rows-InOrder, arranged_rows-Perm, sym want ∙ h),
        λ (l, in_order, same, e).
            want
            ∙ ap query_of (
                InOrder-unique arranged_rows-InOrder in_order
                  (Perm.trans arranged_rows-Perm (Perm.symm same)))
            ∙ e,
      )

module _ (quote : Bytes → Bytes) where
  add_unescaped-NodupKeys :
      (k v : Unescaped) (m : Values) (e : Option Err)
      → NodupKeys m
      → NodupKeys (add_unescaped quote k v (m, e)).0
  unfolding add_unescaped add
  add_unescaped-NodupKeys (malformed bad) v m e h = h
  add_unescaped-NodupKeys (text k) (malformed bad) m e h = h
  add_unescaped-NodupKeys (text k) (text v) m e h = insert-NodupKeys k _ m h

  add_piece-NodupKeys :
      (piece : Bytes) (r : Values × Option Err)
      → NodupKeys r.0
      → NodupKeys (add_piece quote piece r).0
  unfolding add_piece
  add_piece-NodupKeys piece (m, e) h = elim (Bool-cases (contains piece b';')) [
    | inl bad ↦ rw bad h
    | inr fine ↦ rw fine (elim (Bool-cases (piece == [])) [
      | inl nothing ↦ rw nothing h
      | inr more ↦ rw more (add_unescaped-NodupKeys _ _ m e h)
    ])
  ]

  add_pieces-NodupKeys :
      (ps : List Bytes) (r : Values × Option Err)
      → NodupKeys r.0
      → NodupKeys (add_pieces quote ps r).0
  unfolding add_pieces
  add_pieces-NodupKeys [] r h = h
  add_pieces-NodupKeys (p ∷ ps) r h =
      add_pieces-NodupKeys ps (add_piece quote p r) (add_piece-NodupKeys p r h)

  parse_query-NodupKeys : (raw : Bytes) → NodupKeys (parse_query quote raw).0
  unfolding parse_query
  parse_query-NodupKeys raw = add_pieces-NodupKeys (split raw (codes "&")) ([], none) tt

  -- A query is accepted exactly if it is parsed without an error, and is the text of the pairs that
  -- it is parsed to: `key=value` for each value of each key, in the order of the keys, and of the
  -- values where the keys are equal, joined by `&`.
  pub validate_query-Spelled_iff :
      (raw : Bytes)
      → (validate_query quote raw ≡ none)
        ↔ (((parse_query quote raw).1 ≡ none) × Spelled raw (parse_query quote raw).0)
  unfolding validate_query
  validate_query-Spelled_iff raw =
      let nodup = parse_query-NodupKeys raw in
      let (to, from) =
        compare_query-none_iff quote raw (parse_query quote raw).0 (parse_query quote raw).1 in
      let (spell, read) = want_query-Spelled_iff (parse_query quote raw).0 nodup raw in
      (λ h. ((to h).0, spell (to h).1), λ (fine, spelled). from (fine, read spelled))
