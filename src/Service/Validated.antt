-- ===== src/Service/Validated.antt =====
-- A file that the command of pkg/cli/mapping_validate.go accepts, in the mapping service.
use pmap.Base.{
  ◌≡◌, ◌↔◌, inl, inr, refl, sym, ◌∙◌, ap, Option, none, some, List, [], ◌∷◌, ◌++◌, Bytes, arith,
  bytes_eq, All,
}
use pmap.Base.Dict.{Dict, lookup}
use pmap.Errors.{Err, ok}
use pmap.Errors.Fallible.{Fallible, value}
use pmap.Api.{ResourceMapping, Structs, get_provider}
use pmap.Api.Validation.{validate_resource_mapping}
use pmap.Api.Validation.Faults.{validate_resource_mapping-none_iff}
use pmap.Cli.Validate.{FileSystem, validate_resource_mappings}
use pmap.Cli.Validate.Accepted.{Good, yaml_files, validate_resource_mappings-none_iff}
use pmap.Server.Handler.{
  Codec, EventHandler, Notification, Storage, Processor, run_processors, finish_event,
  get_gcs_object_bytes, generate_pmap_event_bytes,
}
use pmap.Server.PubSub.{Messenger}
use pmap.Mapping.Inventory.{AnnoValue, AssetInventoryProcessor, gcp_provider, process}
use pmap.Mapping.Inventory.Enrich.{
  IsLawful, process-other_provider, process-keeps, process-annotations,
}
use pmap.Service.{mapping_service}
use pmap.Service.Outcomes.{run_processors-one, run_processors-one_failed}

value-inj : {A : Type 0} {a b : A} → ◌≡◌ {A = Fallible A} (value a) (value b) → a ≡ b
value-inj h = cc

All-middle :
    (P : Bytes → Type 0) (before : List Bytes) (file : Bytes) (after : List Bytes)
    → All P (before ++ file ∷ after)
    → P file
All-middle P [] file after h = h.0
All-middle P (x ∷ before) file after h = All-middle P before file after h.1

run_processors-single :
    {T : Type 0} (f : Processor T) (x : T) (r : Option Err × T)
    → f.process x ≡ r
    → (run_processors (f ∷ []) x).1 ≡ r.1
run_processors-single f x (none, y) h = ap (λ q. q.1) (run_processors-one f x h)
run_processors-single f x (some e, y) h = ap (λ q. q.1) (run_processors-one_failed f x h)

-- Every annotation of the first struct is in the second one, with its value.
abbrev pub Keeps : {S Value : Type 0} → Structs S Value → Option S → Option S → Type 0
Keeps {Value = Value} structs annos annos' =
    (k : Bytes) (v : Value)
    → lookup k (structs.as_map annos) ≡ some v
    → lookup k (structs.as_map annos') ≡ some v

module _ {Time Policy S Value : Type 0} (structs : Structs S Value) (quote : Bytes → Bytes)
    (to_proto_struct : Dict (Dict (AnnoValue Time Policy)) → Fallible S)
    (p : AssetInventoryProcessor Time Policy) (laws : IsLawful structs)
    (packs : (d : Dict (Dict (AnnoValue Time Policy))) (s : S)
      → to_proto_struct d ≡ value s
      → (k : Bytes) → (lookup k (structs.as_map (some s)) ≡ none) ↔ (lookup k d ≡ none))
    (url_parse : Bytes → Fallible Bytes) (parse_address : Bytes → Option Err) where
  process-Keeps :
      (mapping : ResourceMapping S)
      → validate_resource_mapping quote url_parse structs parse_address mapping ≡ none
      → Keeps structs mapping.annotations
          (process structs quote to_proto_struct p mapping).1.annotations
  process-Keeps mapping valid k v held =
      elim (bytes_eq.dec (get_provider mapping.resource) gcp_provider) [
        | yes gcp ↦ elim (process-keeps structs quote to_proto_struct p mapping).2 [
          | inl fine ↦
              let (t, (_, kept)) =
                process-annotations structs quote to_proto_struct p mapping laws packs gcp fine in
              let (_, free, _, _, _) =
                (validate_resource_mapping-none_iff quote url_parse structs parse_address mapping).0
                  valid in
              ground (arith, kept k)
          | inr same ↦ rw same held
        ]
        | no other ↦ rw (process-other_provider structs quote to_proto_struct p mapping other) held
      ]

  module _ {Payload Moment W : Type 0} (codec : Codec (ResourceMapping S) Payload Moment)
      (client : Storage) (success failure : Messenger W) (m : Notification)
      (fs : FileSystem (ResourceMapping S)) where
    abbrev service : EventHandler (ResourceMapping S) W
    service = mapping_service structs quote to_proto_struct p client success failure

    abbrev check : ResourceMapping S → Option Err
    check mapping = validate_resource_mapping quote url_parse structs parse_address mapping

    -- The command accepts a directory with a YAML file that is then uploaded as it is: with the same decoder of YAML, the service decodes the object to what the
    -- command has read and found valid, and makes the event of a mapping that has every annotation
    -- of the file with its value, whatever the asset inventory answers.
    pub generate-validated :
        (dir file : Bytes) (before after : List Bytes) {b : Bytes}
        → yaml_files (fs.walk_dir dir) ≡ before ++ file ∷ after
        → (validate_resource_mappings quote fs check dir).1 ≡ none
        → fs.read_file file ≡ value b
        → ((x : ResourceMapping S) → fs.from_yaml b ≡ value x → codec.from_yaml b ≡ ok x)
        → get_gcs_object_bytes client m.attributes ≡ ok b
        → (mapping : ResourceMapping S) × (fs.from_yaml b ≡ value mapping)
          × (check mapping ≡ none)
          × (generate_pmap_event_bytes codec service m
              ≡ finish_event codec m (run_processors service.processors mapping))
          × Keeps structs mapping.annotations
              (run_processors service.processors mapping).1.annotations
    unfolding generate_pmap_event_bytes
    generate-validated dir file before after {b} listed passed held same read =
        let (_, all) = (validate_resource_mappings-none_iff quote fs check dir).0 passed in
        let fine = All-middle (Good fs check) before file after (rw listed at all) in
        let (b', mapping, held', decoded, valid) = fine in
        let one : b' ≡ b = value-inj (sym held' ∙ held) in
        let decoded_b : fs.from_yaml b ≡ value mapping = ap fs.from_yaml (sym one) ∙ decoded in
        let yaml = same mapping decoded_b in
        let end = run_processors-single _ mapping _ refl in
        (
          mapping,
          decoded_b,
          valid,
          rw (read, yaml) refl,
          λ k v own.
              ap (λ (x : ResourceMapping S). lookup k (structs.as_map x.annotations)) end
              ∙ process-Keeps mapping valid k v own,
        )
