-- ===== src/Service/PolicyServing.antt =====
-- When `Run` of `PolicyServerCommand` of pkg/cli/policy_server.go serves, and what, by the flags.
use pmap.Base.{◌≡◌, ◌≢◌, ◌↔◌, refl, sym, ◌∙◌, ap, Option, none, List, [], Bytes, codes}
use pmap.Errors.{Err, ok}
use pmap.Go.Flags.{assign}
use pmap.Server.Config.{HandlerConfig, validate}
use pmap.Server.Config.Flags.{handler_flags, to_flags, zero_config}
use pmap.Server.Config.Accepts.{validate-none_iff}
use pmap.Server.PubSub.{new_pub_sub_messenger}
use pmap.Server.Handler.{Storage, EventHandler}
use pmap.Server.Options.{noop_messenger}
use pmap.Cli.Start.{Closers, State}
use pmap.Cli.Server.{Cloud, Ran, finished}
use pmap.Cli.Server.Commands.{Values, Parser, bound, policy_flags, policy_server_run}
use pmap.Service.Policy.{policy_handler, policy_run_unstarted-ok_iff}
use pmap.Service.Serving.{bound-eq-ok, run-none_iff}

module _ {C Client Srv W T : Type 0} (closers : Closers C) (quote_list : List Bytes → Bytes)
    (cloud : Cloud Client Srv W) (parse : Parser HandlerConfig)
    (start_http_handler : Srv → EventHandler T W → Option Err) (args : List Bytes)
    (s : State C) where
  -- No processors, the topic that the flags name for successes, and nothing for failures.
  abbrev service_of : Values → Client → Storage → EventHandler T W
  service_of value client store = record {
    client = store;
    processors = [];
    success_messenger = new_pub_sub_messenger (
        cloud.topic_of client
          (value (codes "success-topic-id") (codes "PMAP_SUCCESS_TOPIC_ID") []));
    failure_messenger = noop_messenger;
  }

  -- The arguments are flags only, the flags are given, the clients and the server are made of them,
  -- and the server ends without an error.
  abbrev pub ServesPolicies : Type 0
  ServesPolicies =
      (value : Values) × (client : Client) × (store : Storage) × (srv : Srv) × (parse to_flags args
        ≡ ok (value, []))
      × (value (codes "project-id") (codes "PROJECT_ID") [] ≢ [])
      × (value (codes "success-topic-id") (codes "PMAP_SUCCESS_TOPIC_ID") [] ≢ [])
      × (cloud.new_pubsub_client (value (codes "project-id") (codes "PROJECT_ID") []) ≡ ok client)
      × (cloud.new_storage_client ≡ ok store)
      × (cloud.new_server (value (codes "port") (codes "PORT") (codes "8080")) ≡ ok srv)
      × (start_http_handler srv (service_of value client store) ≡ none)

  abbrev server_run : Ran C
  server_run = policy_server_run closers quote_list cloud parse start_http_handler args s

  abbrev handler_of : HandlerConfig → Client → Storage → EventHandler T W
  handler_of cfg client store =
      policy_handler closers quote_list cloud (policy_flags parse args) s cfg client store

  ServesPolicies_of_run : (c : C) × (server_run ≡ finished none c) → ServesPolicies
  unfolding policy_server_run policy_flags handler_flags
  ServesPolicies_of_run h =
      let (srv, handler, started, ended) =
        (run-none_iff closers quote_list cloud start_http_handler _).0 h in
      let (cfg, client, store, parsed, good, made, opened, served, whole) =
        (policy_run_unstarted-ok_iff closers quote_list cloud _ s srv handler).0 started in
      let (value, read, same) =
        bound-eq-ok to_flags zero_config.handler_config (parse to_flags args) parsed in
      let (project, topic) = (validate-none_iff _).0 (ap validate same ∙ good) in
      (
        value,
        client,
        store,
        srv,
        read,
        project,
        topic,
        ap (λ (c : HandlerConfig). cloud.new_pubsub_client c.project_id) same ∙ made,
        opened,
        ap (λ (c : HandlerConfig). cloud.new_server c.port) same ∙ served,
        ap (λ c. start_http_handler srv (handler_of c client store)) same
            ∙ ap (start_http_handler srv) (sym whole)
            ∙ ended,
      )

  run_of_ServesPolicies : ServesPolicies → (c : C) × (server_run ≡ finished none c)
  unfolding policy_server_run policy_flags handler_flags
  run_of_ServesPolicies
        (value, client, store, srv, read, project, topic, made, opened, served, ended) =
      let cfg = assign value to_flags zero_config.handler_config in
      let handler = handler_of cfg client store in
      let started =
        (policy_run_unstarted-ok_iff closers quote_list cloud (policy_flags parse args) s srv
            handler).1
          (
            cfg,
            client,
            store,
            ap (bound to_flags zero_config.handler_config) read,
            (validate-none_iff cfg).1 (project, topic),
            made,
            opened,
            served,
            refl,
          ) in
      (run-none_iff closers quote_list cloud start_http_handler _).1 (srv, handler, started, ended)

  -- `Run` of the policy server returns nil exactly if the arguments are flags only, those of the
  -- project and of the success topic have values, the Pub/Sub client of that project, the storage
  -- client and the server at the port, 8080 by default, are made, and the server ends without an
  -- error, with no processors, that topic for successes, and nothing for failures.
  pub policy_server_run-none_iff : ((c : C) × (server_run ≡ finished none c)) ↔ ServesPolicies
  policy_server_run-none_iff = (ServesPolicies_of_run, run_of_ServesPolicies)
