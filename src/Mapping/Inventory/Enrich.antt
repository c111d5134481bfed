-- ===== src/Mapping/Inventory/Enrich.antt =====
-- What `Process` changes.
use mathlib.Core.Option.{or_else}
use pmap.Base.{
  ◌≡◌, ◌≢◌, ◌↔◌, ◌⊎◌, inl, inr, refl, sym, ap, ◌∙◌, Option, none, some, [], ◌∷◌, Bytes, arith, ◌==◌,
  bytes_eq, if◌then◌else◌,
}
use pmap.Base.Dict.{Dict, lookup, NodupKeys}
use pmap.Errors.{Err}
use pmap.Errors.Fallible.{Fallible, value, failed, or_wrap, or_new, >>=-eq-value, or_wrap-eq-value}
use pmap.Api.{ResourceMapping, Structs, get_provider, annotation_key_asset_info}
use pmap.Mapping.Scope.{parse_scope}
use pmap.Mapping.Merge.{merge_annotations, lookup-merge_fields}
use pmap.Mapping.Inventory.{
  AnnoValue, AssetInventoryProcessor, gcp_provider, get_single_resource, get_iam_policies,
  asset_inventory_annos, validate_and_enrich, enriched, annotate, process,
}

-- What is assumed of `structpb`: a Go map holds a key once, and a struct made of a map gives the
-- map back.
pub record IsLawful {S Value : Type 0} (structs : Structs S Value) : Type 0 where
  pub as_map-NodupKeys : (s : Option S) → NodupKeys (structs.as_map s)
  pub as_map-new_struct :
      (m : Dict Value) (s : S)
      → structs.new_struct m ≡ value s
      → (k : Bytes) → lookup k (structs.as_map (some s)) ≡ lookup k m

module _ {S Value : Type 0} (structs : Structs S Value) (laws : IsLawful structs) where
  -- Under the laws of structpb, merged annotations hold the second struct's value at a key, or
  -- else the first one's.
  pub lookup-merge_annotations :
      (annos1 annos2 : Option S) {s : S}
      → merge_annotations structs annos1 annos2 ≡ value s
      → (k : Bytes)
      → lookup k (structs.as_map (some s))
        ≡ or_else (lookup k (structs.as_map annos2)) (lookup k (structs.as_map annos1))
  unfolding merge_annotations
  lookup-merge_annotations annos1 annos2 {s} h k =
      laws.as_map-new_struct _ s (or_wrap-eq-value _ _ h) k
      ∙ lookup-merge_fields (structs.as_map annos1) (structs.as_map annos2)
          (laws.as_map-NodupKeys annos1) (laws.as_map-NodupKeys annos2) k

module _ {Time Policy S Value : Type 0} (structs : Structs S Value) (quote : Bytes → Bytes)
    (to_proto_struct : Dict (Dict (AnnoValue Time Policy)) → Fallible S)
    (p : AssetInventoryProcessor Time Policy) (mapping : ResourceMapping S) where
  abbrev run : Option Err × ResourceMapping S
  run = process structs quote to_proto_struct p mapping

  -- A mapping of another provider is left as it is, with no error.
  pub process-other_provider : get_provider mapping.resource ≢ gcp_provider → run ≡ (none, mapping)
  unfolding process
  process-other_provider h = ground arith

  annotate-keeps :
      (r : Fallible S)
      → let out = annotate structs quote to_proto_struct p mapping r in
        (out.1.resource ≡ mapping.resource)
        × (out.1.contacts ≡ mapping.contacts)
        × ((out.0 ≡ none) ⊎ (out.1 ≡ mapping))
  annotate-keeps (value annos) = (refl, refl, inl refl)
  annotate-keeps (failed e) = (refl, refl, inr refl)

  -- The resource and the contacts are never changed, and with an error nothing is.
  pub process-keeps :
      (run.1.resource ≡ mapping.resource)
      × (run.1.contacts ≡ mapping.contacts)
      × ((run.0 ≡ none) ⊎ (run.1 ≡ mapping))
  unfolding process
  process-keeps = ground (arith, annotate-keeps (enriched structs quote to_proto_struct p mapping))

  validate_and_enrich-value :
      (scope name : Bytes) {t : S}
      → validate_and_enrich structs quote to_proto_struct p scope name ≡ value t
      → (d : Dict (AnnoValue Time Policy)) × (to_proto_struct ((annotation_key_asset_info, d) ∷ [])
          ≡ value t)
  unfolding validate_and_enrich
  validate_and_enrich-value scope name h =
      let (resource, found, rest) = >>=-eq-value (or_new (get_single_resource p.client _) _) _ h in
      let (iam, listed, last) = >>=-eq-value (or_wrap (get_iam_policies p.client _) _) _ rest in
      (asset_inventory_annos resource iam, or_wrap-eq-value _ _ last)

  enriched-value :
      {s : S}
      → enriched structs quote to_proto_struct p mapping ≡ value s
      → (d : Dict (AnnoValue Time Policy)) × (t : S) × (to_proto_struct
            ((annotation_key_asset_info, d) ∷ [])
          ≡ value t)
        × (merge_annotations structs mapping.annotations (some t) ≡ value s)
  unfolding enriched
  enriched-value h =
      let (scope, parsed, rest) = >>=-eq-value (or_new (parse_scope _) _) _ h in
      let (t, added, merged) =
        >>=-eq-value (or_wrap (validate_and_enrich structs quote to_proto_struct p _ _) _) _ rest in
      let (d, packed) = validate_and_enrich-value _ _ (or_wrap-eq-value _ _ added) in
      (d, t, packed, merged)

  pub process-gcp :
      get_provider mapping.resource ≡ gcp_provider
      → run
        ≡ annotate structs quote to_proto_struct p mapping
            (enriched structs quote to_proto_struct p mapping)
  unfolding process
  process-gcp h = ground arith

  -- What new annotations hold, made of a struct `t` with the asset info alone.
  abbrev pub Annotated : S → Option S → Type 0
  Annotated t annos =
      (lookup annotation_key_asset_info (structs.as_map (some t)) ≢ none)
      × ((k : Bytes)
          → lookup k (structs.as_map annos) ≡ (
              if k == annotation_key_asset_info
              then lookup k (structs.as_map (some t))
              else lookup k (structs.as_map mapping.annotations)))

  module _ (laws : IsLawful structs)
      (packs : (d : Dict (Dict (AnnoValue Time Policy))) (s : S)
        → to_proto_struct d ≡ value s
        → (k : Bytes) → (lookup k (structs.as_map (some s)) ≡ none) ↔ (lookup k d ≡ none)) where
    annotated :
        {s : S}
        → enriched structs quote to_proto_struct p mapping ≡ value s
        → (t : S) × Annotated t (some s)
    unfolding lookup or_else
    annotated {s} h =
        let (d, t, packed, merged) = enriched-value h in
        (
          t,
          (
            (λ absent. ground (arith, (packs _ t packed annotation_key_asset_info).0 absent)),
            λ k. ground (
              arith,
              lookup-merge_annotations structs laws mapping.annotations (some t) merged k,
              (packs _ t packed k).0,
              (packs _ t packed k).1,
            ),
          ),
        )

    -- Under the laws of structpb, a mapping of provider gcp that is processed without an error has
    -- the asset info among its annotations, and every other annotation as it was.
    pub process-annotations :
        get_provider mapping.resource ≡ gcp_provider
        → run.0 ≡ none
        → (t : S) × Annotated t run.1.annotations
    process-annotations gcp fine = rw (process-gcp gcp) (
        go (enriched structs quote to_proto_struct p mapping) refl
          (sym (ap (λ r. r.0) (process-gcp gcp)) ∙ fine))
      where
        go :
            (r : Fallible S)
            → enriched structs quote to_proto_struct p mapping ≡ r
            → (annotate structs quote to_proto_struct p mapping r).0 ≡ none
            → (t : S) × Annotated t
                (annotate structs quote to_proto_struct p mapping r).1.annotations
        go (value s) e _ = annotated e
        go (failed x) e fine = absurd (cc)
