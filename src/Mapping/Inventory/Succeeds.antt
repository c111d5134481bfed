-- ===== src/Mapping/Inventory/Succeeds.antt =====
-- When `Process` enriches a mapping.
use pmap.Base.{◌≡◌, ◌↔◌, ap, Option, none, some, List, [], ◌∷◌, ◌++◌, Bytes, codes}
use pmap.Base.Dict.{Dict}
use pmap.Errors.{Err}
use pmap.Errors.Fallible.{Fallible, value, failed, or_wrap, or_new, >>=-eq-value, or_wrap-eq-value}
use pmap.Api.{ResourceMapping, Structs, get_provider, get_name, annotation_key_asset_info}
use pmap.Mapping.Scope.{parse_scope}
use pmap.Mapping.Merge.{merge_annotations}
use pmap.Mapping.Inventory.{
  done, next, AnnoValue, AssetInventoryProcessor, SearchResult, gcp_provider, page_size,
  get_single_resource, get_iam_policies, asset_inventory_annos, validate_and_enrich, or_default,
  enriched, annotate, process,
}
use pmap.Mapping.Inventory.Search.{
  stream_of, get_single_resource-value_iff, get_iam_policies-value_iff,
}
use pmap.Mapping.Inventory.Enrich.{process-gcp}

or_new-eq-value :
    {A : Type 0} (m : Fallible A) (text : Bytes) {a : A} → or_new m text ≡ value a → m ≡ value a
or_new-eq-value (value b) text h = h
or_new-eq-value (failed e) text h = cc

module _ {Time Policy S Value : Type 0} (structs : Structs S Value) (quote : Bytes → Bytes)
    (to_proto_struct : Dict (Dict (AnnoValue Time Policy)) → Fallible S)
    (p : AssetInventoryProcessor Time Policy) (mapping : ResourceMapping S) where
  abbrev run : Option Err × ResourceMapping S
  run = process structs quote to_proto_struct p mapping

  abbrev name : Bytes
  name = get_name mapping.resource

  -- The name is read, the search for it in its scope gives one resource, the search for policies
  -- gives a list, the struct `t` holds the asset info that is made of both, and merged into the
  -- annotations it gives `s`.
  abbrev pub EnrichedBy : S → S → Type 0
  EnrichedBy t s =
      (scope : Bytes) × (r : SearchResult Time) × (iam : List Policy) × (parse_scope name
        ≡ value scope)
      × (p.client.search_all_resources (record {
        scope = or_default structs quote to_proto_struct p scope;
        query = codes "name=" ++ name;
        page_size = page_size;
      })
          ≡ next r done)
      × (p.client.search_all_iam_policies (record {
        scope = or_default structs quote to_proto_struct p scope;
        query = codes "resource=" ++ name;
      })
          ≡ stream_of iam)
      × (to_proto_struct ((annotation_key_asset_info, asset_inventory_annos r iam) ∷ []) ≡ value t)
      × (merge_annotations structs mapping.annotations (some t) ≡ value s)

  enriched-EnrichedBy :
      {s : S}
      → enriched structs quote to_proto_struct p mapping ≡ value s
      → (t : S) × EnrichedBy t s
  unfolding enriched validate_and_enrich
  enriched-EnrichedBy h =
      let (scope, e1, h1) = >>=-eq-value (or_new (parse_scope name) _) _ h in
      let (t, e2, merged) =
        >>=-eq-value (or_wrap (validate_and_enrich structs quote to_proto_struct p _ _) _) _ h1 in
      let inner = or_wrap-eq-value _ _ e2 in
      let (r, e3, h3) = >>=-eq-value (or_new (get_single_resource p.client _) _) _ inner in
      let (iam, e4, h4) = >>=-eq-value (or_wrap (get_iam_policies p.client _) _) _ h3 in
      (
        t,
        (
          scope,
          r,
          iam,
          or_new-eq-value _ _ e1,
          (get_single_resource-value_iff p.client _ r).0 (or_new-eq-value _ _ e3),
          (get_iam_policies-value_iff p.client _ iam).0 (or_wrap-eq-value _ _ e4),
          or_wrap-eq-value _ _ h4,
          merged,
        ),
      )

  enriched_of_EnrichedBy :
      {t s : S} → EnrichedBy t s → enriched structs quote to_proto_struct p mapping ≡ value s
  unfolding enriched validate_and_enrich
  enriched_of_EnrichedBy (scope, r, iam, parsed, one, listed, packed, merged) =
      let found = (get_single_resource-value_iff p.client _ r).1 one in
      let policies = (get_iam_policies-value_iff p.client _ iam).1 listed in
      rw (parsed, found, policies, packed, merged)

  annotated-eq :
      (r : Fallible S) {s : S}
      → annotate structs quote to_proto_struct p mapping r
        ≡ (none, record mapping { annotations = some s })
      → r ≡ value s
  annotated-eq (value a) h = let e = ap (λ x. x.1.annotations) h in cc
  annotated-eq (failed e) h = absurd (let k = ap (λ x. x.0) h in cc)

  -- A mapping of provider gcp is processed without an error, to one with the annotations `s`,
  -- exactly if its name is read, one resource and some policies are found, and the asset info
  -- that is made of them is merged into its annotations to give `s`.
  pub process-enriched_iff :
      get_provider mapping.resource ≡ gcp_provider
      → (s : S)
      → (run ≡ (none, record mapping { annotations = some s })) ↔ ((t : S) × EnrichedBy t s)
  process-enriched_iff gcp s = rw (process-gcp structs quote to_proto_struct p mapping gcp) (
    λ h. enriched-EnrichedBy (annotated-eq _ h),
    λ (t, by). ap (annotate structs quote to_proto_struct p mapping) (enriched_of_EnrichedBy by),
  )
