-- ===== src/Api/Subscope/Order.antt =====
-- The order of a map's keys does not matter.
use mathlib.Core.List.{Perm}
use pmap.Base.{◌≡◌, ◌↔◌, ap, none, some, List, Bytes, codes, arith, bytes_eq, Option}
use pmap.Errors.{Err}
use pmap.Go.Strings
use pmap.Go.Sort.Laws.{sort-eq_of_perm}
use pmap.Go.Url.{Values}
use pmap.Api.Subscope.{pairs, keys, want_query, compare_query}

-- In whatever order the keys of a parsed query are visited, the query is compared with the same text.
want_query-eq_of_perm :
    {o o' : List Bytes} (q : Values) → Perm o o' → want_query o q ≡ want_query o' q
unfolding want_query
want_query-eq_of_perm q p = ap (λ l. Strings.join (pairs l q) (codes "&")) (sort-eq_of_perm p)

module _ (quote : Bytes → Bytes) (raw : Bytes) where
  pub compare_query-none_iff :
      (q : Values) (e : Option Err)
      → (compare_query quote raw (q, e) ≡ none) ↔ ((e ≡ none) × (want_query (keys q) q ≡ raw))
  compare_query-none_iff q none = ground arith
  compare_query-none_iff q (some e) = (λ h. absurd (cc), λ (h, _). absurd (cc))
