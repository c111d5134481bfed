-- ===== src/Service/Serving.antt =====
-- When `Run` of `MappingServerCommand` of pkg/cli/mapping_server.go serves, and what, by the flags.
use pmap.Base.{◌≡◌, ◌≢◌, ◌↔◌, refl, sym, ◌∙◌, ap, Option, none, List, [], Bytes, codes}
use pmap.Base.Dict.{Dict}
use pmap.Errors.{Err, Result, ok, err, panicked}
use pmap.Errors.Fallible.{Fallible}
use pmap.Go.Flags.{Section, assign}
use pmap.Api.{ResourceMapping, Structs}
use pmap.Server.Config.{MappingHandlerConfig, validate_mapping}
use pmap.Server.Config.Flags.{
  handler_flags, mapping_to_flags, zero_config, validate_mapping-flags_iff,
}
use pmap.Server.Config.Accepts.{HasKind}
use pmap.Server.PubSub.{new_pub_sub_messenger}
use pmap.Server.Handler.{Storage, EventHandler}
use pmap.Mapping.Inventory.{AnnoValue, AssetClient}
use pmap.Cli.Start.{Closers, State}
use pmap.Cli.Server.{Cloud, Ran, finished, run}
use pmap.Cli.Server.Ready.{mapping_handler, mapping_processor, mapping_run_unstarted-ok_iff}
use pmap.Cli.Server.Commands.{Values, Parser, bound, mapping_flags, mapping_server_run}
use pmap.Service.{mapping_service}

pub bound-eq-ok :
    {Cfg : Type 0} (sections : List (Section Cfg)) (start : Cfg) (r : Result (Values × List Bytes))
    {cfg : Cfg} {args : List Bytes}
    → bound sections start r ≡ ok (cfg, args)
    → (value : Values) × (r ≡ ok (value, args)) × (assign value sections start ≡ cfg)
bound-eq-ok sections start (ok (value, rest)) h = (value, cc, cc)
bound-eq-ok sections start (err e) h = absurd (cc)
bound-eq-ok sections start panicked h = absurd (cc)

module _ {C Client Srv W T : Type 0} (closers : Closers C) (quote_list : List Bytes → Bytes)
    (cloud : Cloud Client Srv W) (start_http_handler : Srv → EventHandler T W → Option Err) where
  pub run-none_iff :
      (r : Result (Srv × EventHandler T W) × State C)
      → ((c : C) × (run closers quote_list cloud start_http_handler r ≡ finished none c)) ↔ (
          (srv : Srv) × (h : EventHandler T W) × (r.0 ≡ ok (srv, h))
          × (start_http_handler srv h ≡ none))
  unfolding run
  run-none_iff (ok (srv, h), s) =
      (λ (c, e). (srv, h, refl, cc), λ (srv', h', same, fine). (s.closer, cc))
  run-none_iff (err e, s) = (λ (c, h). absurd (cc), λ (_, _, h, _). absurd (cc))
  run-none_iff (panicked, s) = (λ (c, h). absurd (cc), λ (_, _, h, _). absurd (cc))

module _ {C Client Srv W Time Policy S Value : Type 0} (closers : Closers C)
    (quote_list : List Bytes → Bytes) (cloud : Cloud Client Srv W) (structs : Structs S Value)
    (quote : Bytes → Bytes) (to_proto_struct : Dict (Dict (AnnoValue Time Policy)) → Fallible S)
    (new_asset_client : Result (AssetClient Time Policy)) (parse : Parser MappingHandlerConfig)
    (start_http_handler : Srv → EventHandler (ResourceMapping S) W → Option Err) (args : List Bytes)
    (s : State C) where
  -- The service over the topics and the scope that the flags name.
  abbrev service_of :
      Values → Client → AssetClient Time Policy → Storage → EventHandler (ResourceMapping S) W
  service_of value client assets store =
      mapping_service structs quote to_proto_struct
        (record {
          default_resource_scope =
              value (codes "default-resource-scope") (codes "PMAP_MAPPING_DEFAULT_RESOURCE_SCOPE")
                [];
          client = assets;
        })
        store
        (new_pub_sub_messenger (
          cloud.topic_of client
            (value (codes "success-topic-id") (codes "PMAP_SUCCESS_TOPIC_ID") [])))
        (new_pub_sub_messenger (
          cloud.topic_of client
            (value (codes "failure-topic-id") (codes "PMAP_FAILURE_TOPIC_ID") [])))

  -- The flags that must have values, and the scope.
  abbrev pub Given : Values → Type 0
  Given value =
      (value (codes "project-id") (codes "PROJECT_ID") [] ≢ [])
      × (value (codes "success-topic-id") (codes "PMAP_SUCCESS_TOPIC_ID") [] ≢ [])
      × (value (codes "failure-topic-id") (codes "PMAP_FAILURE_TOPIC_ID") [] ≢ [])
      × HasKind
          (value (codes "default-resource-scope") (codes "PMAP_MAPPING_DEFAULT_RESOURCE_SCOPE") [])

  -- The arguments are flags only, the flags are given, the clients and the server are made of them,
  -- and the server ends without an error.
  abbrev pub Serves : Type 0
  Serves =
      (value : Values) × (client : Client) × (assets : AssetClient Time Policy) × (store : Storage)
      × (srv : Srv) × (parse mapping_to_flags args ≡ ok (value, []))
      × Given value
      × (cloud.new_pubsub_client (value (codes "project-id") (codes "PROJECT_ID") []) ≡ ok client)
      × (new_asset_client ≡ ok assets)
      × (cloud.new_storage_client ≡ ok store)
      × (cloud.new_server (value (codes "port") (codes "PORT") (codes "8080")) ≡ ok srv)
      × (start_http_handler srv (service_of value client assets store) ≡ none)

  abbrev server_run : Ran C
  server_run =
      mapping_server_run closers quote_list cloud structs quote to_proto_struct new_asset_client
        parse start_http_handler args s

  abbrev flag_config : Values → MappingHandlerConfig
  flag_config value = assign value mapping_to_flags zero_config

  -- The handler for a configuration.
  abbrev handler_of :
      MappingHandlerConfig
      → Client
      → AssetClient Time Policy
      → Storage
      → EventHandler (ResourceMapping S) W
  handler_of cfg client assets store =
      mapping_handler closers quote_list cloud structs quote to_proto_struct new_asset_client
        (mapping_flags parse args) s cfg client
        (mapping_processor closers quote_list cloud structs quote to_proto_struct new_asset_client
          (mapping_flags parse args) s cfg assets)
        store

  Serves_of_run : (c : C) × (server_run ≡ finished none c) → Serves
  unfolding mapping_server_run mapping_flags mapping_to_flags handler_flags
  Serves_of_run h =
      let (srv, handler, started, ended) =
        (run-none_iff closers quote_list cloud start_http_handler _).0 h in
      let (cfg, client, assets, store, parsed, good, made, listed, opened, served, whole) =
        (mapping_run_unstarted-ok_iff closers quote_list cloud structs quote to_proto_struct
            new_asset_client _ s srv handler).0
          started in
      let (value, read, same) =
        bound-eq-ok mapping_to_flags zero_config (parse mapping_to_flags args) parsed in
      (
        value,
        client,
        assets,
        store,
        srv,
        read,
        (validate_mapping-flags_iff value).0 (ap validate_mapping same ∙ good),
        ap (λ c. cloud.new_pubsub_client c.handler_config.project_id) same ∙ made,
        listed,
        opened,
        ap (λ c. cloud.new_server c.handler_config.port) same ∙ served,
        ap (λ c. start_http_handler srv (handler_of c client assets store)) same
            ∙ ap (start_http_handler srv) (sym whole)
            ∙ ended,
      )

  run_of_Serves : Serves → (c : C) × (server_run ≡ finished none c)
  unfolding mapping_server_run mapping_flags mapping_to_flags handler_flags
  run_of_Serves
        (value, client, assets, store, srv, read, given, made, listed, opened, served, ended) =
      let handler = handler_of (flag_config value) client assets store in
      let started =
        (mapping_run_unstarted-ok_iff closers quote_list cloud structs quote to_proto_struct
            new_asset_client (mapping_flags parse args) s srv handler).1
          (
            flag_config value,
            client,
            assets,
            store,
            ap (bound mapping_to_flags zero_config) read,
            (validate_mapping-flags_iff value).1 given,
            made,
            listed,
            opened,
            served,
            refl,
          ) in
      (run-none_iff closers quote_list cloud start_http_handler _).1 (srv, handler, started, ended)

  -- `Run` of the mapping server returns nil exactly if the arguments are flags only, those of the
  -- project and of both topics have values and the scope has one of its kinds, the Pub/Sub client of
  -- that project, the asset and storage clients and the server at the port, 8080 by default, are
  -- made, and the server ends without an error, with the asset inventory processor over the scope
  -- and with the two topics that the flags name.
  pub mapping_server_run-none_iff : ((c : C) × (server_run ≡ finished none c)) ↔ Serves
  mapping_server_run-none_iff = (Serves_of_run, run_of_Serves)
