-- ===== src/Api/Subscope/Single.antt =====
-- Queries with one qualifier.
use pmap.Base.{
  ◌≡◌, ◌≢◌, ◌↔◌, refl, ◌∙◌, ap, true, false, inl, inr, none, [], ◌∷◌, ◌++◌, Bytes, codes, arith,
  bytes_eq, nat_eq, Bool-cases,
}
use pmap.Base.Dict.{lookup, insert}
use pmap.Go.Strings
use pmap.Go.Strings.{split, contains, cut_before, cut_after}
use pmap.Go.Strings.Cut.{split_of_absent, cut-eq_of_contains, contains-append, sides-eq}
use pmap.Go.Sort.{sort}
use pmap.Go.Url.{Unescaped, text, malformed, unescape, add, add_unescaped, parse_query}
use pmap.Go.Url.Plain.{is_plain, unescape-AtMost, unescape_of_plain, is_plain_of_unescape}
use pmap.Api.Subscope.{keys, want_query, compare_query, validate_query}

want_query_single : (k v : Bytes) → want_query (k ∷ []) (add k v []) ≡ k ++ (codes "=" ++ v)
unfolding want_query sort lookup add insert Strings.join
want_query_single k v = ground arith

keys-add : (k v : Bytes) → keys (add k v []) ≡ k ∷ []
unfolding add insert
keys-add k v = refl

module _ (quote : Bytes → Bytes) where
  compare_pair :
      (raw : Bytes) (k v : Bytes)
      → (compare_query quote raw (add k v [], none) ≡ none) ↔ (k ++ (codes "=" ++ v) ≡ raw)
  compare_pair raw k v = rw (keys-add, want_query_single k v) (ground arith)

  parse_single :
      (raw : Bytes)
      → raw ≢ []
      → contains raw b'&' ≡ false
      → contains raw b';' ≡ false
      → parse_query quote raw
        ≡ add_unescaped quote
            (unescape (cut_before raw b'='))
            (unescape (cut_after raw b'='))
            ([], none)
  unfolding parse_query
  parse_single raw full amp semi = rw (split_of_absent b'&' raw amp, semi) (ground arith)

  -- The comparison, for the two sides of the first `=`.
  module _ (raw : Bytes) where
    compare_sides :
        (k' v' : Bytes) (u w : Unescaped)
        → unescape k' ≡ u
        → unescape v' ≡ w
        → raw ≡ k' ++ (codes "=" ++ v')
        → (compare_query quote raw (add_unescaped quote u w ([], none)) ≡ none)
          ↔ ((is_plain k' ≡ true) × (is_plain v' ≡ true))
    unfolding add_unescaped
    compare_sides k' v' (text k) (text v) eu ew form =
        let (to, from) = compare_pair raw k v in
        let at_most_k = rw eu at (unescape-AtMost k') in
        let at_most_v = rw ew at (unescape-AtMost v') in
        (
          λ h.
              let (same_k, same_v) = sides-eq b'=' k v k' v' at_most_k at_most_v (to h ∙ form) in
              (
                is_plain_of_unescape k' (eu ∙ ap text same_k),
                is_plain_of_unescape v' (ew ∙ ap text same_v),
              ),
          λ (pk, pv).
              from (let a = unescape_of_plain k' pk in let b = unescape_of_plain v' pv in cc),
        )
    compare_sides k' v' (text k) (malformed bad) eu ew form =
        (λ h. absurd (cc), λ (pk, pv). absurd (let b = unescape_of_plain v' pv in cc))
    compare_sides k' v' (malformed bad) w eu ew form =
        (λ h. absurd (cc), λ (pk, pv). absurd (let b = unescape_of_plain k' pk in cc))

    -- Without an `=` the pair that is wanted has one and the query has none.
    compare_no_equals :
        (u w : Unescaped)
        → contains raw b'=' ≡ false
        → compare_query quote raw (add_unescaped quote u w ([], none)) ≢ none
    unfolding add_unescaped
    compare_no_equals (text k) (text v) absent h =
        let e = (compare_pair raw k v).0 h in
        absurd (let c = contains-append b'=' k v in let d = rw e at c in cc)
    compare_no_equals (text k) (malformed bad) absent h = cc
    compare_no_equals (malformed bad) w absent h = cc

    -- A query of one qualifier, which is not empty and holds no `&` and no `;`, is accepted exactly
    -- if it has an `=`, with no percent sign and no plus sign on either side of the first one.
    pub validate_query-single_iff :
        raw ≢ []
        → contains raw b'&' ≡ false
        → contains raw b';' ≡ false
        → (validate_query quote raw ≡ none) ↔ (
            (contains raw b'=' ≡ true)
            × (is_plain (cut_before raw b'=') ≡ true)
            × (is_plain (cut_after raw b'=') ≡ true))
    unfolding validate_query
    validate_query-single_iff full amp semi =
        rw (parse_single raw full amp semi) (elim (Bool-cases (contains raw b'=')) [
          | inl cut ↦
              let (to, from) =
                compare_sides (cut_before raw b'=') (cut_after raw b'=') _ _ refl refl
                  (cut-eq_of_contains b'=' raw cut) in
              (λ h. (cut, (to h).0, (to h).1), λ (_, pk, pv). from (pk, pv))
          | inr absent ↦ (λ h. absurd (compare_no_equals _ _ absent h), λ (cut, _, _). absurd (cc))
        ])
