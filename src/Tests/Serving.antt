-- ===== src/Tests/Serving.antt =====
-- The mapping server by its flags, each of which has its own name as its value but for the scope.
use pmap.Base.{◌≡◌, ◌↔◌, Option, none, List, [], Bytes, bytes_eq, nat_eq}
use pmap.Errors.{Err, ok}
use pmap.Api.{ResourceMapping}
use pmap.Base.Dict.{Dict}
use pmap.Server.PubSub.{Message}
use pmap.Server.Handler.{EventHandler}
use pmap.Server.Config.{HandlerConfig, MappingHandlerConfig}
use pmap.Cli.Start.{Handle}
use pmap.Cli.Server.{finished}
use pmap.Cli.Server.Commands.{Parser, mapping_server_run, policy_server_run}
use pmap.Service.Serving.{Serves, mapping_server_run-none_iff}
use pmap.Service.PolicyServing.{ServesPolicies, policy_server_run-none_iff}
use pmap.Tests.Start.{closers, quote_list, cloud, structs, quote, to_proto_struct, assets, start}
use pmap.Tests.Commands.{flag_value}

-- The arguments behind the flags are left.
abbrev parse : Parser MappingHandlerConfig
parse sections args = ok (flag_value, args)

abbrev listen : Bytes → EventHandler (ResourceMapping (Dict Bytes)) (List Message) → Option Err
listen srv h = none

mapping_server_run-none_iff_example :
    ((c : List Handle) × (mapping_server_run closers quote_list cloud structs quote to_proto_struct
          assets parse listen [] start
        ≡ finished none c))
    ↔ Serves closers quote_list cloud structs quote to_proto_struct assets parse listen [] start
mapping_server_run-none_iff_example =
    mapping_server_run-none_iff closers quote_list cloud structs quote to_proto_struct assets parse
      listen [] start

abbrev parse_policy : Parser HandlerConfig
parse_policy sections args = ok (flag_value, args)

abbrev listen_policy : Bytes → EventHandler Bytes (List Message) → Option Err
listen_policy srv h = none

policy_server_run-none_iff_example :
    ((c : List Handle) × (policy_server_run closers quote_list cloud parse_policy listen_policy []
          start
        ≡ finished none c))
    ↔ ServesPolicies closers quote_list cloud parse_policy listen_policy [] start
policy_server_run-none_iff_example =
    policy_server_run-none_iff closers quote_list cloud parse_policy listen_policy [] start
