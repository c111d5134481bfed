-- ===== src/Service.antt =====
-- The mapping service: the event handler of pkg/server/event_handler.go with the processor of
-- pkg/mapping/processors/assetinventory.go, as pkg/cli/mapping_server.go puts them together.
pub mod Outcomes
pub mod Policy
pub mod Probed
pub mod Validated
pub mod Serving
pub mod PolicyServing
use pmap.Base.{List, [], ◌∷◌, Bytes}
use pmap.Base.Dict.{Dict}
use pmap.Errors.Fallible.{Fallible}
use pmap.Api.{ResourceMapping, Structs}
use pmap.Server.PubSub.{Messenger}
use pmap.Server.Handler.{EventHandler, Storage}
use pmap.Mapping.Inventory.{AnnoValue, AssetInventoryProcessor, process}

module _ {Time Policy S Value : Type 0} (structs : Structs S Value) (quote : Bytes → Bytes)
    (to_proto_struct : Dict (Dict (AnnoValue Time Policy)) → Fallible S)
    (p : AssetInventoryProcessor Time Policy) where
  -- The handler with the asset inventory processor as its one processor.
  abbrev pub mapping_service :
      {W : Type 0} → Storage → Messenger W → Messenger W → EventHandler (ResourceMapping S) W
  mapping_service client success failure = record {
    client = client;
    processors = record { process = process structs quote to_proto_struct p } ∷ [];
    success_messenger = success;
    failure_messenger = failure;
  }
