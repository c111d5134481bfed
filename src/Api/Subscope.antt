-- ===== src/Api/Subscope.antt =====
-- `validateSubscope` of apis/v1alpha1/validation.go.
pub mod Order
pub mod Single
pub mod Groups
pub mod Collected
pub mod Rows
pub mod Sorted
pub mod Unique
pub mod Spelled
use pmap.Base.{
  Option, none, some, List, [], ◌∷◌, ◌++◌, map, Bytes, codes, ◌==◌, bytes_eq, if◌then◌else◌,
}
use pmap.Base.Dict.{Dict, lookup}
use pmap.Errors.{Err, plain, wrapped}
use pmap.Errors.Fallible.{Fallible, value, failed}
use pmap.Go.Strings
use pmap.Go.Sort.{sort}
use pmap.Go.Url.{Values, or_empty, parse_query}
use pmap.Api.Messages.{Resource, get_subscope}

-- `for _, v := range q[k] { kvPairs = append(kvPairs, fmt.Sprintf("%s=%s", k, v)) }`
unfoldable pub pairs_of : Bytes → List Bytes → List Bytes
pairs_of k [] = []
pairs_of k (v ∷ vs) = (k ++ (codes "=" ++ v)) ∷ pairs_of k vs

-- The loop over the sorted keys.
unfoldable pub pairs : List Bytes → Values → List Bytes
unfolding pairs_of
pairs [] q = []
pairs (k ∷ ks) q = pairs_of k (sort (or_empty (lookup k q))) ++ pairs ks q

abbrev pub keys : {V : Type 0} → Dict V → List Bytes
keys = map (λ (k, _). k)

-- `wantQueryString`, where `order` is the order in which `for k := range q` gives the keys.
unfoldable pub want_query : List Bytes → Values → Bytes
unfolding pairs
want_query order q = Strings.join (pairs (sort order) q) (codes "&")

abbrev out_of_order : Bytes → Bytes → Err
out_of_order want got = plain (
    codes "subscope validation failed: qualifiers must be in alphabetical order, want: "
    ++ (want ++ (codes ", got: " ++ got)))

-- `url_parse` is `url.Parse`, which gives the `RawQuery`, and `quote` is `strconv.Quote`.
module _ (quote : Bytes → Bytes) where
  abbrev compare_query : Bytes → Values × Option Err → Option Err
  compare_query raw (q, some e) = some (
      wrapped
        (codes "subscope validation failed: failed to parse qualifier string "
          ++ (raw ++ codes ": "))
        e)
  compare_query raw (q, none) =
      let want = want_query (keys q) q in if want == raw then none else some (out_of_order want raw)

  unfoldable pub validate_query : Bytes → Option Err
  validate_query raw = compare_query raw (parse_query quote raw)

  abbrev validate_parsed : Bytes → Fallible Bytes → Option Err
  validate_parsed subscope (value raw) = validate_query raw
  validate_parsed subscope (failed e) = some (
      wrapped
        (codes "subscope validation failed: failed to parse subscope string "
          ++ (subscope ++ codes ": "))
        e)

  -- `validateSubscope`
  unfoldable pub validate_subscope : (Bytes → Fallible Bytes) → Option Resource → Option Err
  unfolding validate_query
  validate_subscope url_parse r =
      if get_subscope r == []
      then none
      else validate_parsed (get_subscope r) (url_parse (get_subscope r))
