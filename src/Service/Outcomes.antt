-- ===== src/Service/Outcomes.antt =====
-- What becomes of a mapping that is uploaded: it is passed on enriched, or it is reported as it is.
use pmap.Base.{◌≡◌, ◌↔◌, refl, ap, true, Option, none, some, [], ◌∷◌, ◌++◌, Bytes, codes}
use pmap.Base.Dict.{Dict}
use pmap.Errors.{Err, wrapped, new, is, message, ok}
use pmap.Errors.Fallible.{Fallible, value, failed}
use pmap.Go.Strings.{split}
use pmap.Api.{ResourceMapping, Structs, get_provider, get_name}
use pmap.Server.PubSub.{Messenger}
use pmap.Server.Source.{GitHubSource}
use pmap.Server.Handler.{
  Codec, EventHandler, Notification, Processor, Storage, attr_key_process_err, event_of,
  get_gcs_object_bytes, github_source, handle, object_error, run_processors,
}
use pmap.Server.Handler.Failures.{handle-whole, handle-failed_processor}
use pmap.Mapping.Scope.{parse_scope, invalid_name}
use pmap.Mapping.Scope.Laws.{Dangling, parse_scope-failed_iff}
use pmap.Mapping.Inventory.{
  AnnoValue, AssetInventoryProcessor, gcp_provider, page_size, get_single_resource,
  validate_and_enrich, or_default, not_enriched, enriched, process,
}
use pmap.Mapping.Inventory.Enrich.{process-gcp}
use pmap.Mapping.Inventory.Succeeds.{EnrichedBy, process-enriched_iff}
use pmap.Service.{mapping_service}

pub run_processors-one :
    {T : Type 0} (f : Processor T) (x : T) {y : T}
    → f.process x ≡ (none, y)
    → run_processors (f ∷ []) x ≡ (none, y)
unfolding run_processors
run_processors-one f x h = rw h (ap (λ r. (none, r.1)) h)

pub run_processors-one_failed :
    {T : Type 0} (f : Processor T) (x : T) {y : T} {e : Err}
    → f.process x ≡ (some e, y)
    → run_processors (f ∷ []) x ≡ (some (object_error e), y)
unfolding run_processors
run_processors-one_failed f x {e} h = rw h (ap (λ r. (some (object_error e), r.1)) h)

module _ {Time Policy S Value : Type 0} (structs : Structs S Value) (quote : Bytes → Bytes)
    (to_proto_struct : Dict (Dict (AnnoValue Time Policy)) → Fallible S)
    (p : AssetInventoryProcessor Time Policy) (mapping : ResourceMapping S) where
  abbrev name : Bytes
  name = get_name mapping.resource

  -- The errors that tell the user that the resource cannot be found under the name.
  pub data Refused : Err → Type 0 where
    dangling :
        Dangling (split name (codes "/"))
        → Refused (new (codes "failed to parse project: " ++ message (invalid_name name)))
    not_single :
        {scope : Bytes} {x : Err}
        → parse_scope name ≡ value scope
        → get_single_resource p.client (record {
          scope = or_default structs quote to_proto_struct p scope;
          query = codes "name=" ++ name;
          page_size = page_size;
        })
          ≡ failed x
        → Refused (
            wrapped
              (not_enriched structs quote to_proto_struct p name
                (or_default structs quote to_proto_struct p scope))
              (new (codes "failed to get single matched resource: " ++ message x)))

  process-Refused :
      {e : Err}
      → get_provider mapping.resource ≡ gcp_provider
      → Refused e
      → process structs quote to_proto_struct p mapping ≡ (some e, mapping)
  process-Refused gcp (dangling d) =
      rw (process-gcp structs quote to_proto_struct p mapping gcp)
        (unfold enriched in rw ((parse_scope-failed_iff name).1 d))
  process-Refused gcp (not_single parsed missing) =
      rw (process-gcp structs quote to_proto_struct p mapping gcp)
        (unfold enriched validate_and_enrich in rw (parsed, missing))

  is-Refused : {e : Err} → Refused e → is (object_error e) ≡ true
  unfolding is new
  is-Refused (dangling d) = refl
  is-Refused (not_single parsed missing) = refl

  module _ {Payload Moment W : Type 0} (codec : Codec (ResourceMapping S) Payload Moment)
      (client : Storage) (success failure : Messenger W) (m : Notification) where
    abbrev service : EventHandler (ResourceMapping S) W
    service = mapping_service structs quote to_proto_struct p client success failure

    -- An object that is read and decoded to a mapping of provider gcp whose resource is found, and
    -- whose annotations can be enriched, to `s`: if the encoders succeed, the event of the mapping
    -- with the annotations `s` goes to the success messenger, with no attributes, and the call
    -- succeeds exactly if that messenger does.
    pub handle-EnrichedBy :
        (w : W) {b event_bytes : Bytes} {t s : S} {payload : Payload}
        {gr : Option (GitHubSource Moment)}
        → get_gcs_object_bytes client m.attributes ≡ ok b
        → codec.from_yaml b ≡ ok mapping
        → get_provider mapping.resource ≡ gcp_provider
        → EnrichedBy structs quote to_proto_struct p mapping t s
        → codec.new_any (record mapping { annotations = some s }) ≡ ok payload
        → github_source codec m ≡ ok gr
        → codec.marshal (event_of codec payload gr) ≡ ok event_bytes
        → let sent = success.send event_bytes [] w in
          ((handle codec service m w).1 ≡ sent.1)
          × (((handle codec service m w).0 ≡ ok tt) ↔ (sent.0 ≡ none))
    handle-EnrichedBy w {t = t} {s = s} read decoded gcp by packed sourced marshalled =
        let (_, run) = process-enriched_iff structs quote to_proto_struct p mapping gcp s in
        handle-whole codec service m w read decoded (run_processors-one _ mapping (run (t, by)))
          packed sourced marshalled

    -- An object that is read and decoded to a mapping of provider gcp that is refused: if the
    -- encoders succeed, the event of the mapping as it was uploaded goes to the failure messenger,
    -- with the reason as the one attribute, and the call succeeds exactly if that messenger does.
    pub handle-Refused :
        (w : W) {b event_bytes : Bytes} {e : Err} {payload : Payload}
        {gr : Option (GitHubSource Moment)}
        → get_gcs_object_bytes client m.attributes ≡ ok b
        → codec.from_yaml b ≡ ok mapping
        → get_provider mapping.resource ≡ gcp_provider
        → Refused e
        → codec.new_any mapping ≡ ok payload
        → github_source codec m ≡ ok gr
        → codec.marshal (event_of codec payload gr) ≡ ok event_bytes
        → let sent =
            failure.send event_bytes ((attr_key_process_err, message (object_error e)) ∷ []) w in
          ((handle codec service m w).1 ≡ sent.1)
          × (((handle codec service m w).0 ≡ ok tt) ↔ (sent.0 ≡ none))
    handle-Refused w read decoded gcp refused packed sourced marshalled =
        handle-failed_processor codec service m w read decoded
          (run_processors-one_failed _ mapping (process-Refused gcp refused)) (is-Refused refused)
          packed sourced marshalled
