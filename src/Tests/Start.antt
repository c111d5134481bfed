-- ===== src/Tests/Start.antt =====
-- The server commands over a cloud whose clients are plain data.
use pmap.Base.{
  ℕ, ◌≡◌, refl, none, some, List, [], ◌∷◌, ◌++◌, Bytes, bytes_eq, nat_eq, codes, ◌==◌,
  if◌then◌else◌,
}
use pmap.Go.Strings.{split}
use pmap.Mapping.Inventory.Create.{new_asset_inventory_processor}
use pmap.Server.Options.{new_handler, with_failure_messenger}
use pmap.Errors.{plain, Result, ok, err}
use pmap.Errors.Fallible.{Fallible, value}
use pmap.Server.Config.{
  HandlerConfig, MappingHandlerConfig, validate_mapping, is_scope_kind, join_if, validate,
}
use pmap.Server.PubSub.{Message, Topic}
use pmap.Mapping.Inventory.{AnnoValue, AssetClient, done}
use pmap.Base.Dict.{Dict}
use pmap.Cli.Start.{
  Handle, pubsub_client, topic, asset_client, storage_client, Closers, State, ◌>>=◌, lift, acquire,
  stop_later, open_handle,
}
use pmap.Cli.Server.{Cloud, mapping_run_unstarted}
use pmap.Api.{Structs, ResourceMapping}
use pmap.Server.Handler.{Storage, EventHandler}
use pmap.Cli.Server.Ready.{mapping_handler}
use pmap.Cli.Server.Releases.{IsLawful, Covered, mapping_run_unstarted-Covered}

-- A closer is the list of what it releases.
abbrev pub closers : Closers (List Handle)
closers = record { nil_closer = []; append = λ c hs. c ++ hs }

laws : IsLawful closers
laws = record { releases = λ c. c; releases-nil_closer = refl; releases-append = λ c hs. refl }

abbrev pub quote_list : List Bytes → Bytes
quote_list l = []

abbrev pub outbox : Topic (List Message)
outbox = record { publish = λ m w. (none, m ∷ w) }

abbrev pub store : Storage
store = record { new_reader = λ b o. ok (record { content = o; failure = none }) }

-- No server can listen to the port 80.
abbrev pub cloud : Cloud Bytes Bytes (List Message)
cloud = record {
  new_pubsub_client = λ project. ok project;
  topic_of = λ client id. outbox;
  new_storage_client = ok store;
  new_server = λ port. if port == codes "80" then err (plain (codes "in use")) else ok port;
}

abbrev pub common : HandlerConfig
common = record {
  port = codes "80";
  project_id = codes "p";
  success_topic_id = codes "s";
  failure_topic_id = codes "f";
}

abbrev config : MappingHandlerConfig
config = record { default_resource_scope = codes "projects/p"; handler_config = common }

abbrev pub structs : Structs (Dict Bytes) Bytes
structs = record { as_map = λ s. elim s [ none ↦ [] | some d ↦ d ]; new_struct = λ d. value d }

abbrev pub quote : Bytes → Bytes
quote s = s

abbrev pub to_proto_struct : Dict (Dict (AnnoValue ℕ Bytes)) → Fallible (Dict Bytes)
to_proto_struct d = value []

abbrev pub asset_inventory : AssetClient ℕ Bytes
asset_inventory = record {
  search_all_resources = λ req. done;
  search_all_iam_policies = λ req. done;
}

abbrev pub assets : Result (AssetClient ℕ Bytes)
assets = ok asset_inventory

abbrev pub start : State (List Handle)
start = record { closer = []; opened = [] }

-- The server cannot be made, so the storage client stays open.
still_open :
    (mapping_run_unstarted closers quote_list cloud structs quote to_proto_struct assets
      (ok (config, []))
      start).1
    ≡ record {
      closer = pubsub_client ∷ topic (codes "s") ∷ topic (codes "f") ∷ asset_client ∷ [];
      opened =
          pubsub_client
          ∷ topic (codes "s")
          ∷ topic (codes "f")
          ∷ asset_client
          ∷ storage_client
          ∷ [];
    }
unfolding mapping_run_unstarted ◌>>=◌ lift validate_mapping is_scope_kind bytes_eq split nat_eq
    join_if validate acquire stop_later new_asset_inventory_processor open_handle new_handler
    with_failure_messenger
still_open = refl

mapping_run_unstarted-Covered_example :
    Covered closers laws
      (mapping_run_unstarted closers quote_list cloud structs quote to_proto_struct assets
        (ok (config, []))
        start).1
mapping_run_unstarted-Covered_example =
    mapping_run_unstarted-Covered closers laws quote_list cloud structs quote to_proto_struct assets
      (ok (config, []))

abbrev open_config : MappingHandlerConfig
open_config = record config { handler_config = record common { port = codes "81" } }

abbrev served : EventHandler (ResourceMapping (Dict Bytes)) (List Message)
served =
    mapping_handler closers quote_list cloud structs quote to_proto_struct assets
      (ok (open_config, [])) start open_config (codes "p")
      (record { default_resource_scope = codes "projects/p"; client = asset_inventory }) store

starts :
    (mapping_run_unstarted closers quote_list cloud structs quote to_proto_struct assets
      (ok (open_config, []))
      start).0
    ≡ ok (codes "81", served)
unfolding mapping_run_unstarted ◌>>=◌ lift validate_mapping is_scope_kind bytes_eq split nat_eq
    join_if validate acquire stop_later new_asset_inventory_processor open_handle new_handler
    with_failure_messenger
starts = refl
