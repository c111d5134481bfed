-- ===== src/Cli/Server/Commands.antt =====
-- `Flags` and `Run` of `MappingServerCommand` and `PolicyServerCommand` of pkg/cli/mapping_server.go
-- and policy_server.go, from the arguments to the server.
use pmap.Base.{Option, List, Bytes}
use pmap.Base.Dict.{Dict}
use pmap.Errors.{Err, Result, ok, err, panicked}
use pmap.Errors.Fallible.{Fallible}
use pmap.Go.Flags.{Section, assign}
use pmap.Api.{ResourceMapping, Structs}
use pmap.Server.Config.{HandlerConfig, MappingHandlerConfig}
use pmap.Server.Config.Flags.{to_flags, mapping_to_flags, zero_config}
use pmap.Server.Handler.{EventHandler}
use pmap.Mapping.Inventory.{AnnoValue, AssetClient}
use pmap.Cli.Start.{Closers, State}
use pmap.Cli.Server.{Cloud, Ran, policy_run_unstarted, mapping_run_unstarted, run}

-- The values of the flags, by name, environment variable and default.
abbrev pub Values : Type 0
Values = Bytes → Bytes → Bytes → Bytes

-- `Parse` and `Args` of a flag set with these sections.
abbrev pub Parser : Type 0 → Type 0
Parser Cfg = List (Section Cfg) → List Bytes → Result (Values × List Bytes)

-- What the parser does to the variables that the flags are bound to.
abbrev pub bound :
    {Cfg : Type 0}
    → List (Section Cfg)
    → Cfg
    → Result (Values × List Bytes)
    → Result (Cfg × List Bytes)
bound sections cfg (ok (value, args)) = ok (assign value sections cfg, args)
bound sections cfg (err e) = err e
bound sections cfg panicked = panicked

-- `Flags` of the two commands, and the call of `Parse` on it
unfoldable pub mapping_flags :
    Parser MappingHandlerConfig → List Bytes → Result (MappingHandlerConfig × List Bytes)
mapping_flags parse args = bound mapping_to_flags zero_config (parse mapping_to_flags args)

unfoldable pub policy_flags :
    Parser HandlerConfig → List Bytes → Result (HandlerConfig × List Bytes)
policy_flags parse args = bound to_flags zero_config.handler_config (parse to_flags args)

module _ {C Client Srv W : Type 0} (closers : Closers C) (quote_list : List Bytes → Bytes)
    (cloud : Cloud Client Srv W) where
  -- `Run` of the policy server
  unfoldable pub policy_server_run :
      {T : Type 0}
      → Parser HandlerConfig
      → (Srv → EventHandler T W → Option Err)
      → List Bytes
      → State C
      → Ran C
  policy_server_run parse start_http_handler args s =
      run closers quote_list cloud start_http_handler
        (policy_run_unstarted closers quote_list cloud (policy_flags parse args) s)

  module _ {Time Policy S Value : Type 0} (structs : Structs S Value) (quote : Bytes → Bytes)
      (to_proto_struct : Dict (Dict (AnnoValue Time Policy)) → Fallible S)
      (new_asset_client : Result (AssetClient Time Policy)) where
    -- `Run` of the mapping server
    unfoldable pub mapping_server_run :
        Parser MappingHandlerConfig
        → (Srv → EventHandler (ResourceMapping S) W → Option Err)
        → List Bytes
        → State C
        → Ran C
    mapping_server_run parse start_http_handler args s =
        run closers quote_list cloud start_http_handler (
          mapping_run_unstarted closers quote_list cloud structs quote to_proto_struct
            new_asset_client (mapping_flags parse args) s)
