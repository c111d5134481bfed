-- ===== src/Tests/Handler.antt =====
-- The handler over a small type of messages: an object is its own text, and `bad` is no YAML.
use pmap.Base.{
  ℕ, ◌≡◌, ◌↔◌, refl, Option, none, some, List, [], ◌∷◌, ◌++◌, Bytes, bytes_eq, codes, ◌==◌,
  if◌then◌else◌, take,
}
use pmap.Base.Dict.{lookup}
use pmap.Errors.{Err, plain, new, is, message, ok, err}
use pmap.Go.Io.{Reader, read_all_limited}
use pmap.Server.Handler.{
  Codec, EventHandler, Notification, Processor, PubSubMessage, Storage, attr_key_process_err,
  generate_pmap_event_bytes, get_gcs_object_bytes, github_source, handle, object_error,
  run_processors,
}
use pmap.Server.Handler.Routes.{Sent, success, failure, Log, logged}
use pmap.Server.Handler.Failures.{KeepsFacing, generate-KeepsFacing, handle-failed_processor}
use pmap.Server.Http.{response, status_created, notification, http_handler}
use pmap.Server.Http.Status.{http_handler-created_iff}

abbrev pub codec : Codec Bytes Bytes ℕ
codec = record {
  from_yaml = λ b. if b == codes "bad" then err (plain (codes "no yaml")) else ok b;
  new_any = λ p. ok p;
  marshal = λ event. elim event.payload [ none ↦ err (plain (codes "empty")) | some p ↦ ok p ];
  unmarshal_notification = λ b. ok (some (record { metadata = [] }));
  parse_time = λ t. ok 0;
  unmarshal_request = λ b.
      if b == []
      then err (plain (codes "EOF"))
      else ok (record {
        payload = [];
        attributes = (codes "bucketId", codes "b") ∷ (codes "objectId", b) ∷ [];
        subscription = codes "s";
      });
}

-- An object holds its own name; there is none of the name `gone`.
abbrev pub client : Storage
client = record {
  new_reader = λ bucket object.
      if object == codes "gone"
      then err (plain (codes "not found"))
      else ok (record { content = object; failure = none });
}

abbrev mark : Processor Bytes
mark = record { process = λ p. (none, p ++ codes "!") }

-- It refuses a message of three bytes, `no!`.
abbrev refuse : Processor Bytes
refuse = record {
  process = λ p. if p == codes "no!" then (some (new (codes "refused")), p) else (none, p);
}

abbrev pub processors : List (Processor Bytes)
processors = mark ∷ refuse ∷ mark ∷ []

abbrev takes_all : Sent → Option Err
takes_all s = none

abbrev pub handler : EventHandler Bytes Log
handler = logged client processors takes_all

abbrev pub named : Bytes → Notification
named object = record {
  payload = [];
  attributes = (codes "bucketId", codes "b") ∷ (codes "objectId", object) ∷ [];
}

abbrev facing : Err
facing = object_error (new (codes "refused"))

whole_run : handle codec handler (named (codes "a")) [] ≡ (ok tt, success (codes "a!!") [] ∷ [])
unfolding handle generate_pmap_event_bytes get_gcs_object_bytes lookup bytes_eq read_all_limited
    take run_processors github_source
whole_run = refl

failed_run : handle codec handler (named (codes "no")) [] ≡ (
  ok tt,
  failure
        (codes "no!")
        ((codes "ProcessErr", codes "failed to process object: pmap process err: refused") ∷ [])
      ∷ [],
)
unfolding handle generate_pmap_event_bytes get_gcs_object_bytes lookup bytes_eq read_all_limited
    take run_processors github_source is message new
failed_run = refl

generate-KeepsFacing_example :
    KeepsFacing (generate_pmap_event_bytes codec handler (named (codes "no")))
unfolding get_gcs_object_bytes lookup bytes_eq read_all_limited take run_processors is new
generate-KeepsFacing_example =
    generate-KeepsFacing codec handler (named (codes "no")) {b = codes "no"} {p = codes "no"}
      {q = codes "no!"} {e = facing} refl refl refl refl

handle-failed_processor_example :
    let s =
      handler.failure_messenger.send
        (codes "no!")
        ((attr_key_process_err, message facing) ∷ [])
        [] in
    ((handle codec handler (named (codes "no")) []).1 ≡ s.1)
    × (((handle codec handler (named (codes "no")) []).0 ≡ ok tt) ↔ (s.0 ≡ none))
unfolding get_gcs_object_bytes lookup bytes_eq read_all_limited take run_processors github_source is
    new
handle-failed_processor_example =
    handle-failed_processor codec handler (named (codes "no")) [] {b = codes "no"} {p = codes "no"}
      {q = codes "no!"} {e = facing} {payload = codes "no!"} {gr = none} refl refl refl refl refl
      refl refl

abbrev pub body : Reader
body = record { content = codes "a"; failure = none }

abbrev pub empty_body : Reader
empty_body = record { content = []; failure = none }

http_handler-created_iff_example :
    ((http_handler codec handler body []).0 ≡ response status_created (codes "OK")) ↔ (
      (b : Bytes) × (m : PubSubMessage) × (read_all_limited 256_000 body ≡ ok b)
      × (codec.unmarshal_request b ≡ ok m)
      × ((handle codec handler (notification m) []).0 ≡ ok tt))
http_handler-created_iff_example = http_handler-created_iff codec handler body []
