-- ===== src/Service/Probed.antt =====
-- What the mapping service makes of the file that the prober of prober/main.go uploads.
use mathlib.Core.Option.{or_else}
use pmap.Base.{
  arith, ◌≡◌, ◌≢◌, refl, sym, ap, ◌∙◌, true, Option, none, some, [], ◌∷◌, Bytes, codes, bytes_eq,
  nat_eq,
}
use pmap.Base.Dict.{Dict, lookup}
use pmap.Errors.{ok}
use pmap.Errors.Fallible.{Fallible, value}
use pmap.Api.{ResourceMapping, Structs, get_provider, annotation_key_asset_info}
use pmap.Api.Validation.{is_found}
use pmap.Server.PubSub.{Messenger}
use pmap.Server.Source.{NotificationPayload, file_path}
use pmap.Server.Source.Fields.{read_keys, AgreeOn}
use pmap.Server.Handler.{
  Codec, Notification, Storage, event_of, get_gcs_object_bytes, github_source, handle,
}
use pmap.Mapping.Inventory.{
  AnnoValue, AssetInventoryProcessor, ResourcesRequest, SearchResult, next, done, gcp_provider,
}
use pmap.Mapping.Inventory.Ancestors.{lookup-asset_inventory_annos}
use pmap.Mapping.Inventory.Enrich.{IsLawful, lookup-merge_annotations}
use pmap.Mapping.Inventory.Succeeds.{EnrichedBy}
use pmap.Prober.{get_prober_gcs_metadata, want_github_source}
use pmap.Prober.Source.{parse_git_hub_source-prober}
use pmap.Prober.Config.{Config, Values, mapping_trace, mapping_data, want_resource_mapping}
use pmap.Prober.Probe.{has_ancestors, mapping_diff}
use pmap.Prober.Probe.Diffs.{DiffLaws, mapping_diff-none_iff}
use pmap.Service.{mapping_service}
use pmap.Service.Outcomes.{handle-EnrichedBy}

-- The notification of a file that is uploaded with the prober's metadata, under a name without a
-- separator that marks a file path.
pub record FromProber {T Payload Time : Type 0} (codec : Codec T Payload Time) (m : Notification)
    : Type 0 where
  pub format : lookup (codes "payloadFormat") m.attributes ≡ some (codes "JSON_API_V1")
  pub metadata : NotificationPayload
  pub unmarshalled : codec.unmarshal_notification m.payload ≡ ok (some metadata)
  pub uploaded : AgreeOn read_keys metadata.metadata get_prober_gcs_metadata
  pub object_id : Bytes
  pub named : lookup (codes "objectId") m.attributes ≡ some object_id
  pub bare : file_path (some object_id) ≡ []

github_source-prober :
    {T Payload Time : Type 0} (codec : Codec T Payload Time) (m : Notification)
    → FromProber codec m
    → github_source codec m ≡ ok (some want_github_source)
unfolding github_source
github_source-prober codec m from =
    rw
      (
        from.format,
        parse_git_hub_source-prober codec.parse_time codec.unmarshal_notification m.payload
            from.object_id m.attributes from.unmarshalled from.uploaded from.named from.bare,
      )
      (ground arith)

module _ {S Value V Payload Moment : Type 0} (structs : Structs S Value)
    (values : Values S V Payload Moment) where
  -- The struct inside of a struct at a key, as a map.
  abbrev nested : S → Bytes → Dict Value
  nested s k = structs.as_map (values.get_struct_value (lookup k (values.get_fields (some s))))

  -- What is assumed of structpb and of `ToProtoStruct`: what is inside of a struct at a key is in
  -- its map at the key, and the struct that is made of a map of one map holds the inner map's keys.
  pub record IsNested {Time Policy : Type 0}
      (to_proto_struct : Dict (Dict (AnnoValue Time Policy)) → Fallible S) : Type 0 where
    pub nested-ext :
        (s t : S) (k : Bytes)
        → lookup k (structs.as_map (some s)) ≡ lookup k (structs.as_map (some t))
        → nested s k ≡ nested t k
    pub packed-outer :
        (k : Bytes) (d : Dict (AnnoValue Time Policy)) (t : S)
        → to_proto_struct ((k, d) ∷ []) ≡ value t
        → lookup k (structs.as_map (some t)) ≢ none
    pub packed-inner :
        (k j : Bytes) (d : Dict (AnnoValue Time Policy)) (t : S)
        → to_proto_struct ((k, d) ∷ []) ≡ value t
        → lookup j d ≢ none
        → lookup j (nested t k) ≢ none

or_else-found : {A : Type 0} (a b : Option A) → a ≢ none → or_else a b ≡ a
unfolding or_else
or_else-found none b h = absurd (h refl)
or_else-found (some x) b h = refl

is_found-true : {A : Type 0} (a : Option A) → a ≢ none → is_found a ≡ true
is_found-true none h = absurd (h refl)
is_found-true (some x) h = refl

-- The resources that the asset inventory lists are in projects.
abbrev pub InProjects : {Time Policy : Type 0} → AssetInventoryProcessor Time Policy → Type 0
InProjects {Time = Time} p =
    (req : ResourcesRequest) (r : SearchResult Time)
    → p.client.search_all_resources req ≡ next r done
    → r.project ≢ []

module _ {Time Policy S Value V Payload Moment W : Type 0} (structs : Structs S Value)
    (quote : Bytes → Bytes) (to_proto_struct : Dict (Dict (AnnoValue Time Policy)) → Fallible S)
    (p : AssetInventoryProcessor Time Policy) (values : Values S V Payload Moment)
    (diffs : DiffLaws values) (codec : Codec (ResourceMapping S) Payload Moment) (client : Storage)
    (success failure : Messenger W) (m : Notification) (cfg : Config) (timestamp : Bytes)
    (mapping : ResourceMapping S) where
  EnrichedBy-has_ancestors :
      {t s : S}
      → IsLawful structs
      → IsNested structs values to_proto_struct
      → InProjects p
      → EnrichedBy structs quote to_proto_struct p mapping t s
      → has_ancestors structs values (record mapping { annotations = some s }) ≡ true
  unfolding has_ancestors
  EnrichedBy-has_ancestors {t} {s} lawful inside listed (scope, r, iam, _, one, _, packed, merged) =
      let k = annotation_key_asset_info in
      let held = inside.packed-outer k _ t packed in
      let same =
        lookup-merge_annotations structs lawful mapping.annotations (some t) merged k
        ∙ or_else-found _ _ held in
      let inner =
        inside.packed-inner k (codes "ancestors") _ t packed
          (lookup-asset_inventory_annos r iam (listed _ r one)) in
      let equal = inside.nested-ext s t k same in
      is_found-true _ (λ h. inner (sym (ap (lookup (codes "ancestors")) equal) ∙ h))

  -- The service reads the file that the prober uploads, decodes it to the resource and the contacts
  -- that the prober wants, and finds the resource in a project: if the encoders succeed, it sends
  -- one event to the success messenger, and the prober has nothing against this event and the
  -- mapping in it.
  pub mapping_diff-handle :
      (w : W) {event_bytes : Bytes} {t s : S} {payload : Payload}
      → IsLawful structs
      → IsNested structs values to_proto_struct
      → InProjects p
      → FromProber codec m
      → get_gcs_object_bytes client m.attributes ≡ ok (mapping_data cfg (mapping_trace timestamp))
      → codec.from_yaml (mapping_data cfg (mapping_trace timestamp)) ≡ ok mapping
      → (want_resource_mapping {S = S} cfg).resource ≡ mapping.resource
      → (want_resource_mapping {S = S} cfg).contacts ≡ mapping.contacts
      → EnrichedBy structs quote to_proto_struct p mapping t s
      → codec.new_any (record mapping { annotations = some s }) ≡ ok payload
      → let event = event_of codec payload (some want_github_source) in
        codec.marshal event ≡ ok event_bytes
        → ((handle codec
              (mapping_service structs quote to_proto_struct p client success failure)
              m
              w).1
            ≡ (success.send event_bytes [] w).1)
          × (mapping_diff structs values cfg event (record mapping { annotations = some s }) ≡ none)
  unfolding want_resource_mapping
  mapping_diff-handle w lawful inside listed from read decoded resource contacts by packed
        marshalled =
      let gcp : get_provider mapping.resource ≡ gcp_provider = sym (ap get_provider resource) in
      let (sent, _) =
        handle-EnrichedBy structs quote to_proto_struct p mapping codec client success failure m w
          read decoded gcp by packed (github_source-prober codec m from) marshalled in
      let found = EnrichedBy-has_ancestors lawful inside listed by in
      (
        sent,
        (mapping_diff-none_iff structs values diffs cfg _ _).1 (resource, contacts, refl, found),
      )
