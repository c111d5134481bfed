-- ===== src/Tests/Service.antt =====
-- The mapping service over the small asset inventory; an object's name is the name of the resource.
use pmap.Base.{
  ℕ, ◌≡◌, ◌↔◌, refl, Option, none, some, List, [], ◌∷◌, ◌++◌, Bytes, bytes_eq, nat_eq, codes, take,
}
use pmap.Base.Dict.{Dict, lookup}
use pmap.Errors.{Err, message, new, ok}
use pmap.Go.Io.{read_all_limited}
use pmap.Go.Strings.{split}
use pmap.Api.{ResourceMapping, annotation_key_asset_info}
use pmap.Server.PubSub.{Messenger}
use pmap.Server.Handler.{
  Codec, Notification, Storage, attr_key_process_err, get_gcs_object_bytes, github_source, handle,
  object_error,
}
use pmap.Mapping.Scope.{is_scope_word, is_dangling, scan, scope_text, invalid_name, parse_scope}
use pmap.Mapping.Scope.Laws.{at_end, later}
use pmap.Mapping.Merge.{merge_annotations, merge_fields}
use pmap.Mapping.Inventory.{asset_inventory_annos, process}
use pmap.Mapping.Inventory.Succeeds.{EnrichedBy, process-enriched_iff}
use pmap.Service.{mapping_service}
use pmap.Service.Outcomes.{dangling, handle-EnrichedBy, handle-Refused}
use pmap.Tests.Mapping.{
  Struct, struct_of, as_map, structs, quote, bucket, name, processor, mapping_of, new_struct,
  dangling_name,
}

abbrev packed : Struct
packed = struct_of (
    (annotation_key_asset_info, asset_inventory_annos bucket (codes "admin" ∷ codes "viewer" ∷ []))
    ∷ [])

abbrev merged : Struct
merged = struct_of (merge_fields (as_map (mapping_of name).annotations) (as_map (some packed)))

name-EnrichedBy : EnrichedBy structs quote new_struct processor (mapping_of name) packed merged
unfolding parse_scope split nat_eq bytes_eq is_scope_word scan is_dangling scope_text
    merge_annotations
name-EnrichedBy =
    (codes "projects/1", bucket, codes "admin" ∷ codes "viewer" ∷ [], refl, refl, refl, refl, refl)

process-enriched_iff_example :
    process structs quote new_struct processor (mapping_of name)
    ≡ (none, record (mapping_of name) { annotations = some merged })
process-enriched_iff_example =
    (process-enriched_iff structs quote new_struct processor (mapping_of name) refl merged).1
      (packed, name-EnrichedBy)

-- An object holds the name of its resource, and an event is that name.
abbrev pub codec : Codec (ResourceMapping Struct) (ResourceMapping Struct) ℕ
codec = record {
  from_yaml = λ b. ok (mapping_of b);
  new_any = λ m. ok m;
  marshal = λ event. ok (codes "event");
  unmarshal_notification = λ b. ok none;
  parse_time = λ t. ok 0;
  unmarshal_request = λ b. ok (record { payload = []; attributes = []; subscription = [] });
}

abbrev pub storage : Storage
storage = record { new_reader = λ bucket object. ok (record { content = object; failure = none }) }

-- What is sent is kept: the data and the attributes.
abbrev pub messenger : Messenger (List (Bytes × Dict Bytes))
messenger = record { send = λ text attrs w. (none, w ++ (text, attrs) ∷ []) }

abbrev pub uploaded : Bytes → Notification
uploaded object = record {
  payload = [];
  attributes = (codes "bucketId", codes "b") ∷ (codes "objectId", object) ∷ [];
}

handle-EnrichedBy_example :
    let service = mapping_service structs quote new_struct processor storage messenger messenger in
    let result = handle codec service (uploaded name) [] in
    (result.1 ≡ (codes "event", []) ∷ []) × ((result.0 ≡ ok tt) ↔ (◌≡◌ {A = Option Err} none none))
unfolding get_gcs_object_bytes lookup bytes_eq nat_eq read_all_limited take github_source
handle-EnrichedBy_example =
    handle-EnrichedBy structs quote new_struct processor (mapping_of name) codec storage messenger
      messenger (uploaded name) [] refl refl refl name-EnrichedBy refl refl refl

handle-Refused_example :
    let service = mapping_service structs quote new_struct processor storage messenger messenger in
    let result = handle codec service (uploaded dangling_name) [] in
    let reason =
      object_error
        (new (codes "failed to parse project: " ++ message (invalid_name dangling_name))) in
    (result.1 ≡ (codes "event", (attr_key_process_err, message reason) ∷ []) ∷ [])
    × ((result.0 ≡ ok tt) ↔ (◌≡◌ {A = Option Err} none none))
unfolding get_gcs_object_bytes lookup bytes_eq nat_eq read_all_limited take github_source split
    is_scope_word
handle-Refused_example =
    handle-Refused structs quote new_struct processor (mapping_of dangling_name) codec storage
      messenger messenger (uploaded dangling_name) [] refl refl refl
      (dangling (later (later (later (at_end refl))))) refl refl refl
