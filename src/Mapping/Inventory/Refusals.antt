-- ===== src/Mapping/Inventory/Refusals.antt =====
-- Which errors of `Process` are user facing.
use pmap.Base.{◌≡◌, refl, ◌∙◌, true, false, Option, some, ◌++◌, Bytes, codes}
use pmap.Base.Dict.{Dict}
use pmap.Errors.{Err, is, new, wrapped, message}
use pmap.Errors.Fallible.{Fallible, value, failed}
use pmap.Go.Strings.{split}
use pmap.Api.{ResourceMapping, Structs, get_provider, get_name}
use pmap.Mapping.Scope.{parse_scope, invalid_name}
use pmap.Mapping.Scope.Laws.{Dangling, parse_scope-failed_iff}
use pmap.Mapping.Inventory.{
  AnnoValue, AssetInventoryProcessor, SearchResult, gcp_provider, page_size, get_single_resource,
  get_iam_policies, validate_and_enrich, or_default, not_enriched, no_policies, enriched, process,
}
use pmap.Mapping.Inventory.Enrich.{process-gcp}

module _ {Time Policy S Value : Type 0} (structs : Structs S Value) (quote : Bytes → Bytes)
    (to_proto_struct : Dict (Dict (AnnoValue Time Policy)) → Fallible S)
    (p : AssetInventoryProcessor Time Policy) (mapping : ResourceMapping S) where
  abbrev run : Option Err × ResourceMapping S
  run = process structs quote to_proto_struct p mapping

  -- A mapping of provider gcp whose name has a scope word with nothing behind it fails with a user
  -- facing error, and it stays as it is.
  pub process-Dangling :
      get_provider mapping.resource ≡ gcp_provider
      → Dangling (split (get_name mapping.resource) (codes "/"))
      → (e : Err) × (run ≡ (some e, mapping)) × (is e ≡ true)
  unfolding is new
  process-Dangling gcp d = (
    new (codes "failed to parse project: " ++ message (invalid_name (get_name mapping.resource))),
    process-gcp structs quote to_proto_struct p mapping gcp
        ∙ (unfold enriched in rw ((parse_scope-failed_iff _).1 d)),
    refl,
  )

  -- A mapping of provider gcp whose name is read, and for which the search for its resource fails, or
  -- finds none or more than one, fails with a user facing error, and it stays as it is.
  pub process_not_single :
      get_provider mapping.resource ≡ gcp_provider
      → (scope : Bytes) (x : Err) → parse_scope (get_name mapping.resource) ≡ value scope
      → get_single_resource p.client (record {
        scope = or_default structs quote to_proto_struct p scope;
        query = codes "name=" ++ get_name mapping.resource;
        page_size = page_size;
      })
        ≡ failed x
      → (e : Err) × (run ≡ (some e, mapping)) × (is e ≡ true)
  unfolding is new
  process_not_single gcp scope x parsed missing = (
    wrapped
        (not_enriched structs quote to_proto_struct p (get_name mapping.resource)
          (or_default structs quote to_proto_struct p scope))
        (new (codes "failed to get single matched resource: " ++ message x)),
    process-gcp structs quote to_proto_struct p mapping gcp
        ∙ (unfold enriched validate_and_enrich in rw (parsed, missing)),
    refl,
  )

  -- When the name is read and the resource is found, a search for its policies that fails with an
  -- error that is not user facing gives an error that is not, and the mapping stays as it is.
  pub process_no_policies :
      get_provider mapping.resource ≡ gcp_provider
      → (scope : Bytes) (r : SearchResult Time) (x : Err)
      → parse_scope (get_name mapping.resource) ≡ value scope
      → get_single_resource p.client (record {
        scope = or_default structs quote to_proto_struct p scope;
        query = codes "name=" ++ get_name mapping.resource;
        page_size = page_size;
      })
        ≡ value r
      → get_iam_policies p.client (record {
        scope = or_default structs quote to_proto_struct p scope;
        query = codes "resource=" ++ get_name mapping.resource;
      })
        ≡ failed x
      → is x ≡ false
      → (e : Err) × (run ≡ (some e, mapping)) × (is e ≡ false)
  unfolding is
  process_no_policies gcp scope r x parsed single broken inner =
      let iam_query = codes "resource=" ++ get_name mapping.resource in
      let resource_scope = or_default structs quote to_proto_struct p scope in
      (
        wrapped
            (not_enriched structs quote to_proto_struct p (get_name mapping.resource)
              resource_scope)
            (wrapped (no_policies structs quote to_proto_struct p iam_query resource_scope) x),
        process-gcp structs quote to_proto_struct p mapping gcp
            ∙ (unfold enriched validate_and_enrich in rw (parsed, single, broken)),
        inner,
      )
