-- ===== src/Tests/Policy.antt =====
-- A policy server over the cloud of the tests before; an object is its own text, and `bad` is no YAML.
use pmap.Base.{
  ℕ, ◌≡◌, refl, none, List, [], ◌∷◌, Bytes, bytes_eq, nat_eq, codes, ◌==◌, take, if◌then◌else◌,
}
use pmap.Base.Dict.{lookup}
use pmap.Errors.{Result, plain, ok, err}
use pmap.Go.Io.{read_all_limited}
use pmap.Server.Config.{HandlerConfig, validate}
use pmap.Server.PubSub.{Message, new_pub_sub_messenger}
use pmap.Server.Handler.{
  Codec, EventHandler, Notification, get_gcs_object_bytes, github_source, handle,
}
use pmap.Server.Options.{noop_messenger, new_handler, apply_options}
use pmap.Cli.Start.{Handle, State, ◌>>=◌, lift, acquire, stop_later, open_handle}
use pmap.Cli.Server.{policy_run_unstarted}
use pmap.Service.Policy.{Acknowledged, handle-policy_bad_yaml, handle-policy}
use pmap.Tests.Start.{closers, quote_list, outbox, store, cloud, common}

abbrev config : HandlerConfig
config = record common { port = codes "8080" }

abbrev start : State (List Handle)
start = record { closer = []; opened = [] }

abbrev handler : EventHandler Bytes (List Message)
handler = record {
  client = store;
  processors = [];
  success_messenger = new_pub_sub_messenger outbox;
  failure_messenger = noop_messenger;
}

policy_started :
    (policy_run_unstarted closers quote_list cloud (ok (config, [])) start).0
    ≡ ok (codes "8080", handler)
unfolding policy_run_unstarted lift ◌>>=◌ acquire stop_later open_handle new_handler apply_options
    validate bytes_eq nat_eq
policy_started = refl

abbrev codec : Codec Bytes Bytes ℕ
codec = record {
  from_yaml = λ b. if b == codes "bad" then err (plain (codes "no yaml")) else ok b;
  new_any = λ p. ok p;
  marshal = λ event. ok (codes "event");
  unmarshal_notification = λ b. ok none;
  parse_time = λ t. ok 0;
  unmarshal_request = λ b. ok (record { payload = []; attributes = []; subscription = [] });
}

abbrev named : Bytes → Notification
named object = record {
  payload = [];
  attributes = (codes "bucketId", codes "b") ∷ (codes "objectId", object) ∷ [];
}

handle-policy_bad_yaml_example : handle codec handler (named (codes "bad")) [] ≡ (ok tt, [])
unfolding get_gcs_object_bytes lookup bytes_eq nat_eq read_all_limited take
handle-policy_bad_yaml_example =
    handle-policy_bad_yaml closers quote_list cloud (ok (config, [])) start codec
      (named (codes "bad")) [] policy_started refl refl

handle-policy_example :
    (cfg : HandlerConfig) × (client : Bytes) × ◌≡◌ {A = Result (HandlerConfig × List Bytes)}
      (ok (config, []))
      (ok (cfg, []))
    × (cloud.new_pubsub_client cfg.project_id ≡ ok client)
    × Acknowledged closers quote_list cloud
        (ok (config, []))
        start
        codec
        (named (codes "p"))
        handler
        []
        (codes "event")
        (new_pub_sub_messenger (cloud.topic_of client cfg.success_topic_id))
unfolding get_gcs_object_bytes lookup bytes_eq nat_eq read_all_limited take github_source
handle-policy_example =
    handle-policy closers quote_list cloud (ok (config, [])) start codec (named (codes "p")) []
      policy_started refl refl refl refl refl
