-- ===== src/Tests/Api.antt =====
-- Mappings that are accepted and refused.
use pmap.Base.{
  ℕ, ◌≡◌, ◌≢◌, ◌↔◌, refl, true, Option, none, some, List, [], ◌∷◌, ◌++◌, Bytes, bytes_eq, nat_eq,
  codes, ◌==◌, if◌then◌else◌, All,
}
use pmap.Base.Dict.{Dict, lookup, insert}
use pmap.Errors.{Err, plain, message, join}
use pmap.Errors.Leaves.{leaves}
use pmap.Errors.Fallible.{Fallible, value}
use pmap.Go.Sort.{sort, le}
use pmap.Go.Strings
use pmap.Go.Strings.{split, contains, cut_before, cut_after}
use pmap.Go.Url.{parse_query, unescape}
use pmap.Go.Url.Plain.{is_plain}
use pmap.Go.Url.Pairs.{Pair, CleanPair}
use pmap.Server.Config.{join_if}
use pmap.Server.Config.Laws.{note}
use pmap.Api.{
  ResourceMapping, Structs, get_name, get_provider, get_email, annotation_key_asset_info,
}
use pmap.Api.Subscope.{want_query, validate_query, validate_subscope}
use pmap.Api.Subscope.Groups.{InOrder}
use pmap.Api.Subscope.Sorted.{query_of, validate_query-InOrder_iff}
use pmap.Api.Subscope.Spelled.{Spelled, validate_query-Spelled_iff}
use pmap.Api.Subscope.Single.{validate_query-single_iff}
use pmap.Api.Validation.{
  is_found, reserved_key, join_found, validate_emails, validate_resource, validate_resource_mapping,
}
use pmap.Api.Validation.Faults.{
  bad_emails, validate_resource_mapping-leaves, validate_resource_mapping-none_iff,
}

abbrev quote : Bytes → Bytes
quote s = s

abbrev raw : Bytes
raw = codes "a=1&b=2"

queries :
    (validate_query quote raw ≡ none)
    × (is_found (validate_query quote (codes "b=2&a=1")) ≡ true)
    × (is_found (validate_query quote (codes "a=2&a=1")) ≡ true)
    × (is_found (validate_query quote (codes "a=%31")) ≡ true)
unfolding validate_query parse_query want_query nat_eq bytes_eq split contains unescape cut_before
    cut_after insert Strings.join sort le lookup
queries = (refl, refl, refl, refl)

validate_query-Spelled_iff_example :
    (validate_query quote raw ≡ none)
    ↔ (((parse_query quote raw).1 ≡ none) × Spelled raw (parse_query quote raw).0)
validate_query-Spelled_iff_example = validate_query-Spelled_iff quote raw

validate_query-single_iff_example : (validate_query quote (codes "a=%31") ≡ none) ↔ (
    (contains (codes "a=%31") b'=' ≡ true)
    × (is_plain (cut_before (codes "a=%31") b'=') ≡ true)
    × (is_plain (cut_after (codes "a=%31") b'=') ≡ true))
unfolding contains nat_eq
validate_query-single_iff_example =
    validate_query-single_iff quote (codes "a=%31") (λ e. cc) refl refl

-- A text without a question mark has no query.
abbrev url_parse : Bytes → Fallible Bytes
url_parse s = value (cut_after s b'?')

abbrev structs : Structs (Dict ℕ) ℕ
structs = record { as_map = λ s. elim s [ none ↦ [] | some m ↦ m ]; new_struct = λ m. value m }

abbrev parse_address : Bytes → Option Err
parse_address s = if contains s b'@' then none else some (plain (codes "no address"))

abbrev mapping : ResourceMapping (Dict ℕ)
mapping = record {
  resource =
      some (record { provider = codes "gcp"; name = codes "n"; subscope = codes "s?b=2&a=1" });
  contacts = some (record { email = codes "me" ∷ codes "me@x" ∷ [] });
  annotations = some ((annotation_key_asset_info, 0) ∷ []);
}

validate_resource_mapping-leaves_example :
    leaves (validate_resource_mapping quote url_parse structs parse_address mapping)
    ≡ bad_emails parse_address (get_email mapping.contacts)
      ++ (note
            (is_found (lookup annotation_key_asset_info (structs.as_map mapping.annotations)))
            reserved_key
          ++ (note (get_name mapping.resource == []) (codes "empty resource name")
              ++ (note (get_provider mapping.resource == []) (codes "empty resource provider")
                  ++ leaves (validate_subscope quote url_parse mapping.resource))))
validate_resource_mapping-leaves_example =
    validate_resource_mapping-leaves quote url_parse structs parse_address mapping

validate_resource_mapping-none_iff_example :
    (validate_resource_mapping quote url_parse structs parse_address mapping ≡ none) ↔ (
      All (λ x. parse_address x ≡ none) (get_email mapping.contacts)
      × (lookup annotation_key_asset_info (structs.as_map mapping.annotations) ≡ none)
      × (get_name mapping.resource ≢ [])
      × (get_provider mapping.resource ≢ [])
      × (validate_subscope quote url_parse mapping.resource ≡ none))
validate_resource_mapping-none_iff_example =
    validate_resource_mapping-none_iff quote url_parse structs parse_address mapping

three_faults :
    leaves (validate_resource_mapping quote url_parse structs parse_address mapping)
    ≡ codes "invalid owner: no address"
      ∷ (codes "reserved key is included: assetInfo"
          ∷ (codes
                "subscope validation failed: qualifiers must be in alphabetical order, want: a=1&b=2, got: b=2&a=1"
              ∷ []))
unfolding validate_resource_mapping leaves message contains cut_after bytes_eq nat_eq lookup
    join_found validate_resource validate_subscope parse_query split unescape cut_before want_query
    Strings.join sort insert le join join_if validate_emails
three_faults = refl

-- `a=1&a=2&b=x` is in order.
abbrev second_pairs : List Pair
second_pairs = (codes "a", codes "2") ∷ (codes "b", codes "x") ∷ []

pairs-InOrder : InOrder ((codes "a", codes "1") ∷ second_pairs)
unfolding le bytes_eq nat_eq
pairs-InOrder = (refl, (refl, tt))

pairs_clean : All CleanPair ((codes "a", codes "1") ∷ second_pairs)
unfolding contains nat_eq
pairs_clean = (
  ((refl, refl, refl), refl, (refl, refl, refl)),
  (
    ((refl, refl, refl), refl, (refl, refl, refl)),
    (((refl, refl, refl), refl, (refl, refl, refl)), tt),
  ),
)

validate_query-InOrder_iff_example :
    validate_query quote (query_of ((codes "a", codes "1") ∷ second_pairs)) ≡ none
validate_query-InOrder_iff_example =
    (validate_query-InOrder_iff quote (codes "a", codes "1") second_pairs pairs_clean).1
      pairs-InOrder
