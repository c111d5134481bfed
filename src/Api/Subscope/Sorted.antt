-- ===== src/Api/Subscope/Sorted.antt =====
-- Queries of clean qualifiers: `validateSubscope` accepts those in alphabetical order.
use pmap.Base.{◌≡◌, ◌≢◌, ◌↔◌, refl, ap, ◌∙◌, sym, none, List, [], ◌∷◌, Bytes, codes, bytes_eq, All}
use pmap.Go.Strings
use pmap.Go.Sort.{sort}
use pmap.Go.Url.Pairs.{
  Pair, renders, CleanPair, collect, split-renders, render-inj, render-ne-nil, parse_query-renders,
}
use pmap.Api.Subscope.{keys, want_query, validate_query}
use pmap.Api.Subscope.Order.{compare_query-none_iff}
use pmap.Api.Subscope.Groups.{InOrder}
use pmap.Api.Subscope.Collected.{rows, pairs-renders, rows_of_InOrder}
use pmap.Api.Subscope.Rows.{rows-collect-InOrder, rows-collect-CleanPair}

-- `k1=v1&k2=v2&…`
abbrev pub query_of : List Pair → Bytes
query_of l = Strings.join (renders l) (codes "&")

renders-inj : (l m : List Pair) → All CleanPair l → All CleanPair m → renders l ≡ renders m → l ≡ m
renders-inj [] [] h k e = refl
renders-inj [] (q ∷ m) h k e = absurd (cc)
renders-inj (p ∷ l) [] h k e = absurd (cc)
renders-inj (p ∷ l) (q ∷ m) (h, hs) (k, ks) e =
    let (head, tail) = uncons e in
    let same = render-inj p q h k head in let rest = renders-inj l m hs ks tail in cc
  where
    uncons : {a b : Bytes} {s t : List Bytes} → a ∷ s ≡ b ∷ t → (a ≡ b) × (s ≡ t)
    uncons e = (cc, cc)

query_of-ne-nil : (p : Pair) (l : List Pair) → query_of (p ∷ l) ≢ []
unfolding Strings.join
query_of-ne-nil p [] h = render-ne-nil p h
query_of-ne-nil ([], v) (q ∷ l) h = absurd (cc)
query_of-ne-nil (c ∷ k, v) (q ∷ l) h = absurd (cc)

-- Only the same clean pairs give the same query.
query_of-inj :
    (l : List Pair) (p : Pair) (m : List Pair)
    → All CleanPair l
    → All CleanPair (p ∷ m)
    → query_of l ≡ query_of (p ∷ m)
    → l ≡ p ∷ m
unfolding Strings.join
query_of-inj [] p m h k e = absurd (query_of-ne-nil p m (sym e))
query_of-inj (q ∷ l) p m h k e =
    renders-inj (q ∷ l) (p ∷ m) h k
      (sym (split-renders q l h) ∙ (ap (λ s. Strings.split s (codes "&")) e ∙ split-renders p m k))

module _ (quote : Bytes → Bytes) (p : Pair) (l : List Pair) (clean : All CleanPair (p ∷ l)) where
  -- A query of qualifiers without separators, percent and plus signs in their keys and values, and
  -- without an `=` in a key, is accepted exactly if the qualifiers are in the order of their keys,
  -- and of their values where the keys are equal.
  pub validate_query-InOrder_iff :
      (validate_query quote (query_of (p ∷ l)) ≡ none) ↔ InOrder (p ∷ l)
  unfolding validate_query want_query
  validate_query-InOrder_iff =
      let q = collect (p ∷ l) [] in
      let r = rows (sort (keys q)) q in
      let want = ap (λ s. Strings.join s (codes "&")) (pairs-renders (sort (keys q)) q) in
      let (accepted, back) = compare_query-none_iff quote (query_of (p ∷ l)) q none in
      rw (parse_query-renders quote p l clean) (
        λ h.
            let (_, same) = accepted h in
            let all =
              query_of-inj r p l (rows-collect-CleanPair (p ∷ l) clean) clean (sym want ∙ same) in
            rw all at (rows-collect-InOrder (p ∷ l)),
        λ h. back (refl, want ∙ ap query_of (rows_of_InOrder p l h)),
      )
