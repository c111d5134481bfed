-- ===== src/Cli/Server.antt =====
-- `MappingServerCommand` and `PolicyServerCommand` of pkg/cli/mapping_server.go and policy_server.go.
pub mod Releases
pub mod Ready
pub mod Commands
use pmap.Base.{Option, none, some, List, [], ◌∷◌, ◌++◌, Bytes, codes}
use pmap.Base.Dict.{Dict}
use pmap.Errors.{Err, plain, wrapped, Result, ok, err, panicked, or_wrap}
use pmap.Errors.Fallible.{Fallible}
use pmap.Api.{ResourceMapping, Structs}
use pmap.Server.Config.{HandlerConfig, MappingHandlerConfig, validate, validate_mapping}
use pmap.Server.PubSub.{Topic, Messenger, new_pub_sub_messenger}
use pmap.Server.Handler.{Storage, Processor, EventHandler}
use pmap.Server.Options.{HandlerOption, with_failure_messenger, new_handler}
use pmap.Mapping.Inventory.{AnnoValue, AssetClient, AssetInventoryProcessor, process}
use pmap.Mapping.Inventory.Create.{new_asset_inventory_processor}
use pmap.Cli.Start.{
  Handle, pubsub_client, topic, asset_client, storage_client, Closers, State, Start, ◌>>=◌, lift,
  open_handle, acquire, stop_later,
}

-- The constructors of clients and of the server, and `Topic` of a client.
pub record Cloud (Client Srv W : Type 0) : Type 0 where
  pub new_pubsub_client : Bytes → Result Client
  pub topic_of : Client → Bytes → Topic W
  pub new_storage_client : Result Storage
  pub new_server : Bytes → Result Srv

-- What `Run` gives: the error, and the closer that is closed; or a panic, which closes nothing.
pub data Ran (C : Type 0) : Type 0 where
  finished : Option Err → C → Ran C
  panic : Ran C

-- `if len(args) > 0 { … }`, where `quote_list` is `%q` of a `[]string`.
abbrev no_args : {A : Type 0} → (List Bytes → Bytes) → A × List Bytes → Result A
no_args quote_list (cfg, []) = ok cfg
no_args quote_list (cfg, a ∷ args) =
    err (plain (codes "unexpected arguments: " ++ quote_list (a ∷ args)))

-- `if err := c.cfg.Validate(); err != nil { … }`
abbrev valid : {A : Type 0} → Bytes → A → Option Err → Result A
valid text cfg none = ok cfg
valid text cfg (some e) = err (wrapped text e)

module _ {C Client Srv W : Type 0} (closers : Closers C) (quote_list : List Bytes → Bytes)
    (cloud : Cloud Client Srv W) where
  abbrev messenger : Client → Bytes → Messenger W
  messenger client id = new_pub_sub_messenger (cloud.topic_of client id)

  abbrev pubsub : Bytes → Start C Client
  pubsub project_id =
      acquire closers pubsub_client
        (or_wrap (cloud.new_pubsub_client project_id) (codes "failed to create pubsub client: "))

  -- `NewHandler`, which opens a storage client, and no option gives one.
  abbrev handler :
      {T : Type 0}
      → List (Processor T)
      → Messenger W
      → List (HandlerOption W)
      → Start C (EventHandler T W)
  handler ps success opts = open_handle storage_client (
      or_wrap (new_handler cloud.new_storage_client ps (some success) opts)
        (codes "server.NewHandler: "))

  abbrev serving : Bytes → Start C Srv
  serving port =
      lift (or_wrap (cloud.new_server port) (codes "failed to create serving infrastructure: "))

  abbrev checked :
      {Cfg : Type 0} → Bytes → (Cfg → Option Err) → Result (Cfg × List Bytes) → Start C Cfg
  checked text check parsed = do
    p ← lift (or_wrap parsed (codes "failed to parse flags: "))
    cfg ← lift (no_args quote_list p)
    lift (valid text cfg (check cfg))

  -- `RunUnstarted` of the policy server. `parsed` is what the flags make of the arguments: the
  -- configuration, and the arguments that are left.
  unfoldable pub policy_run_unstarted :
      {T : Type 0} → Result (HandlerConfig × List Bytes) → Start C (Srv × EventHandler T W)
  policy_run_unstarted parsed = do
    cfg ← checked (codes "invalid configuration: ") validate parsed
    client ← pubsub cfg.project_id
    _ ← stop_later closers (topic cfg.success_topic_id ∷ [])
    h ← handler [] (messenger client cfg.success_topic_id) []
    srv ← serving cfg.port
    lift (ok (srv, h))

  module _ {Time Policy S Value : Type 0} (structs : Structs S Value) (quote : Bytes → Bytes)
      (to_proto_struct : Dict (Dict (AnnoValue Time Policy)) → Fallible S)
      (new_asset_client : Result (AssetClient Time Policy)) where
    -- The processor as the handler calls it.
    abbrev pub as_processor : AssetInventoryProcessor Time Policy → Processor (ResourceMapping S)
    as_processor p = record { process = process structs quote to_proto_struct p }

    -- `RunUnstarted` of the mapping server.
    unfoldable pub mapping_run_unstarted :
        Result (MappingHandlerConfig × List Bytes)
        → Start C (Srv × EventHandler (ResourceMapping S) W)
    mapping_run_unstarted parsed = do
      cfg ← checked (codes "invalid mapping configuration: ") validate_mapping parsed
      let common = cfg.handler_config
      client ← pubsub common.project_id
      _ ← stop_later closers (topic common.success_topic_id ∷ (topic common.failure_topic_id ∷ []))
      assets ←
          acquire closers asset_client
            (or_wrap new_asset_client (codes "failed to create the assetClient: "))
      p ← lift (
          or_wrap (new_asset_inventory_processor assets cfg.default_resource_scope [])
            (codes "failed to create assetInventoryProcessor: "))
      h ←
          handler (as_processor p ∷ []) (messenger client common.success_topic_id)
            (with_failure_messenger (some (messenger client common.failure_topic_id)) ∷ [])
      srv ← serving common.port
      lift (ok (srv, h))

  -- `Run`: the handler is served if there is one, and the closer that `RunUnstarted` returns is
  -- closed in any case; the error of that is only logged.
  unfoldable pub run :
      {T : Type 0}
      → (Srv → EventHandler T W → Option Err)
      → Result (Srv × EventHandler T W) × State C
      → Ran C
  run start_http_handler (ok (srv, h), s) = finished (start_http_handler srv h) s.closer
  run start_http_handler (err e, s) = finished (some e) s.closer
  run start_http_handler (panicked, s) = panic
