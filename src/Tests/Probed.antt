-- ===== src/Tests/Probed.antt =====
-- The prober's file through a mapping service whose structs are maps of maps of texts.
use pmap.Base.{
  ℕ, ◌≡◌, refl, ap, ◌∙◌, none, some, List, [], ◌∷◌, Bytes, bytes_eq, nat_eq, codes, take,
}
use pmap.Base.Dict.{lookup}
use pmap.Errors.{ok}
use pmap.Go.Io.{read_all_limited}
use pmap.Go.Strings
use pmap.Go.Strings.{split}
use pmap.Api.{ResourceMapping, annotation_key_asset_info}
use pmap.Server.PubSub.{Messenger}
use pmap.Server.Source.{file_path}
use pmap.Server.Handler.{Codec, Notification, Storage, event_of, get_gcs_object_bytes, handle}
use pmap.Mapping.Scope.{is_scope_word, is_dangling, scan, scope_text, parse_scope}
use pmap.Mapping.Merge.{merge_annotations, merge_fields}
use pmap.Mapping.Inventory.{
  Stream, AssetClient, AssetInventoryProcessor, SearchResult, asset_inventory_annos, done, next,
}
use pmap.Mapping.Inventory.Succeeds.{EnrichedBy}
use pmap.Prober.{get_prober_gcs_metadata, want_github_source}
use pmap.Prober.Config.{want_resource_mapping, mapping_data, mapping_trace}
use pmap.Prober.Probe.{mapping_diff}
use pmap.Service.{mapping_service}
use pmap.Service.Probed.{FromProber, InProjects, mapping_diff-handle}
use pmap.Tests.Mapping.{bucket, quote}
use pmap.Tests.Probe.{cfg}
use pmap.Tests.Nested.{
  Struct, structs, names, to_proto_struct, values, normal, lawful, diffs, values-IsNested,
}

-- Every search finds the bucket, and no policies.
abbrev assets : AssetClient ℕ Bytes
assets = record {
  search_all_resources = λ req. next bucket done;
  search_all_iam_policies = λ req. done;
}

abbrev processor : AssetInventoryProcessor ℕ Bytes
processor = record { default_resource_scope = codes "organizations/9"; client = assets }

next-inj :
    {a b : SearchResult ℕ} → ◌≡◌ {A = Stream (SearchResult ℕ)} (next a done) (next b done) → a ≡ b
next-inj h = cc

bucket-InProjects : InProjects processor
bucket-InProjects req r h e =
    let project : codes "projects/1" ≡ [] = ap (λ x. x.project) (next-inj h) ∙ e in absurd (cc)

abbrev mapping : ResourceMapping Struct
mapping = want_resource_mapping cfg

abbrev packed : Struct
packed = (annotation_key_asset_info, names (asset_inventory_annos bucket [])) ∷ []

abbrev merged : Struct
merged = merge_fields [] (normal packed)

bucket-EnrichedBy : EnrichedBy structs quote to_proto_struct processor mapping packed merged
unfolding want_resource_mapping parse_scope split nat_eq bytes_eq is_scope_word scan is_dangling
    scope_text merge_annotations
bucket-EnrichedBy = ([], bucket, [], refl, refl, refl, refl, refl)

-- Every object holds the prober's file.
abbrev file : Bytes
file = mapping_data cfg (mapping_trace (codes "17"))

abbrev storage : Storage
storage = record { new_reader = λ b o. ok (record { content = file; failure = none }) }

abbrev codec : Codec (ResourceMapping Struct) (ResourceMapping Struct) ℕ
codec = record {
  from_yaml = λ b. ok mapping;
  new_any = λ m. ok m;
  marshal = λ event. ok (codes "event");
  unmarshal_notification = λ b. ok (some (record { metadata = get_prober_gcs_metadata }));
  parse_time = λ t. ok 0;
  unmarshal_request = λ b. ok (record { payload = []; attributes = []; subscription = [] });
}

abbrev messenger : Messenger (List Bytes)
messenger = record { send = λ text attrs w. (none, text ∷ w) }

abbrev uploaded : Notification
uploaded = record {
  payload = [];
  attributes =
      (codes "bucketId", codes "bucket")
      ∷ (codes "objectId", codes "mapping/prober-file-17")
      ∷ (codes "payloadFormat", codes "JSON_API_V1")
      ∷ [];
}

uploaded-FromProber : FromProber codec uploaded
unfolding lookup bytes_eq nat_eq file_path split
uploaded-FromProber = record {
  format = refl;
  metadata = record { metadata = get_prober_gcs_metadata };
  unmarshalled = refl;
  uploaded = (refl, (refl, (refl, (refl, (refl, (refl, (refl, tt)))))));
  object_id = codes "mapping/prober-file-17";
  named = refl;
  bare = refl;
}

mapping_diff-handle_example :
    let service =
      mapping_service structs quote to_proto_struct processor storage messenger messenger in
    let seen = record mapping { annotations = some merged } in
    ((handle codec service uploaded []).1 ≡ codes "event" ∷ [])
    × (mapping_diff structs values cfg (event_of codec seen (some want_github_source)) seen ≡ none)
unfolding get_gcs_object_bytes lookup bytes_eq nat_eq read_all_limited take want_resource_mapping
    mapping_data Strings.join
mapping_diff-handle_example =
    mapping_diff-handle structs quote to_proto_struct processor values diffs codec storage messenger
      messenger uploaded cfg (codes "17") mapping [] lawful values-IsNested bucket-InProjects
      uploaded-FromProber refl refl refl refl bucket-EnrichedBy refl refl
