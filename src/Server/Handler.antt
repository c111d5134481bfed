-- ===== src/Server/Handler.antt =====
-- `EventHandler` of pkg/server/event_handler.go: from a notification to the message downstream.
pub mod Routes
pub mod Journal
pub mod Limits
pub mod Messengers
pub mod Processors
pub mod Failures
use pmap.Base.{
  ℕ, Bool, true, false, Option, none, some, List, [], ◌∷◌, ◌++◌, Bytes, codes, ◌==◌, bytes_eq,
  if◌then◌else◌,
}
use pmap.Base.Dict.{Dict, lookup}
use pmap.Errors.{
  Err, plain, wrapped, new, is, message, join, Result, ok, err, panicked, ◌>>=◌, or_wrap,
}
use pmap.Go.Io.{Reader, read_all_limited}
use pmap.Server.PubSub.{Messenger}
use pmap.Server.Source.{GitHubSource, NotificationPayload, text_or_empty, parse_git_hub_source}

abbrev pub http_request_size_limit_in_bytes : ℕ
http_request_size_limit_in_bytes = 256_000

abbrev pub gcs_object_size_limit_in_bytes : ℕ
gcs_object_size_limit_in_bytes = 25_000_000

abbrev pub attr_key_process_err : Bytes
attr_key_process_err = codes "ProcessErr"

-- `pubsub.Message` as a notification
pub record Notification : Type 0 where
  pub payload : Bytes
  pub attributes : Dict Bytes

-- `PubSubMessage`, flattened
pub record PubSubMessage : Type 0 where
  pub payload : Bytes
  pub attributes : Dict Bytes
  pub subscription : Bytes

-- `PmapEvent` of apis/v1alpha1
pub record PmapEvent (Payload Time : Type 0) : Type 0 where
  pub payload : Option Payload
  pub type : Bytes
  pub timestamp : Option Time
  pub github_source : Option (GitHubSource Time)

-- The storage client: `Bucket(b).Object(o).NewReader(ctx)`. It gives what a bucket holds while one
-- message is handled; between two messages the bucket may be another one.
pub record Storage : Type 0 where
  pub new_reader : Bytes → Bytes → Result Reader

-- `Processor`: it returns nil or an error, and changes the message in place. What it looks up stays
-- as it is while one message is handled.
pub record Processor (T : Type 0) : Type 0 where
  pub process : T → Option Err × T

-- The decoders and encoders that the handler calls.
pub record Codec (T Payload Time : Type 0) : Type 0 where
  pub from_yaml : Bytes → Result T
  pub new_any : T → Result Payload
  pub marshal : PmapEvent Payload Time → Result Bytes
  pub unmarshal_notification : Bytes → Result (Option NotificationPayload)
  pub parse_time : Bytes → Result Time
  pub unmarshal_request : Bytes → Result PubSubMessage

-- `EventHandler`
pub record EventHandler (T W : Type 0) : Type 0 where
  pub client : Storage
  pub processors : List (Processor T)
  pub success_messenger : Messenger W
  pub failure_messenger : Messenger W

-- What a function that returns `([]byte, error)` gives.
pub data Returned : Type 0 where
  returned : Bytes → Option Err → Returned
  panic : Returned

-- `getGCSObjectBytes`
abbrev attribute : Bytes → Bytes → Dict Bytes → Result Bytes
attribute key text attrs = elim (lookup key attrs) [ none ↦ err (plain text) | some v ↦ ok v ]

unfoldable pub get_gcs_object_bytes : Storage → Dict Bytes → Result Bytes
get_gcs_object_bytes client obj_attrs = do
  bucket_id ← attribute (codes "bucketId") (codes "bucket ID not found") obj_attrs
  object_id ← attribute (codes "objectId") (codes "object ID not found") obj_attrs
  rc ←
      or_wrap (client.new_reader bucket_id object_id) (codes "failed to create GCS object reader: ")
  or_wrap (read_all_limited gcs_object_size_limit_in_bytes rc)
      (codes "failed to read object from GCS: ")

abbrev pub object_error : Err → Err
object_error e = wrapped (codes "failed to process object: ") e

module _ {T : Type 0} where
  -- The loop over the processors, which an error stops. It gives `processErr` and the message.
  unfoldable pub run_processors : List (Processor T) → T → Option Err × T
  run_processors [] p = (none, p)
  run_processors (f ∷ fs) p =
      let (failure, p') = f.process p in
      elim failure [ none ↦ run_processors fs p' | some e ↦ (some (object_error e), p') ]

module _ {T Payload Time : Type 0} (codec : Codec T Payload Time) where
  -- `nil, errors.Join(processErr, fmt.Errorf("text%w", err))`
  abbrev fail_with : Option Err → Bytes → Err → Returned
  fail_with process_err text e = returned [] (join process_err (some (wrapped text e)))

  -- The source is read only from a notification in the format of the JSON API.
  unfoldable pub github_source : Notification → Result (Option (GitHubSource Time))
  github_source m =
      if text_or_empty (lookup (codes "payloadFormat") m.attributes) == codes "JSON_API_V1"
      then (do
        r ←
            parse_git_hub_source codec.parse_time codec.unmarshal_notification m.payload
              m.attributes
        ok (some r))
      else ok none

  abbrev pub event_of : Payload → Option (GitHubSource Time) → PmapEvent Payload Time
  event_of payload gr = record {
    payload = some payload;
    type = [];
    timestamp = none;
    github_source = gr;
  }

  abbrev marshal_event : Option Err → Result Bytes → Returned
  marshal_event process_err (ok b) = returned b process_err
  marshal_event process_err (err e) =
      fail_with process_err (codes "failed to marshal event to byte: ") e
  marshal_event process_err panicked = panic

  abbrev add_source : Option Err → Payload → Result (Option (GitHubSource Time)) → Returned
  add_source process_err payload (ok gr) =
      marshal_event process_err (codec.marshal (event_of payload gr))
  add_source process_err payload (err e) =
      fail_with process_err (codes "failed to parse metadata: ") e
  add_source process_err payload panicked = panic

  abbrev add_payload : Notification → Option Err → Result Payload → Returned
  add_payload m process_err (ok payload) = add_source process_err payload (github_source m)
  add_payload m process_err (err e) =
      fail_with process_err (codes "failed to convert object to pmap event payload: ") e
  add_payload m process_err panicked = panic

  -- From the processed message to the event.
  abbrev pub finish_event : Notification → Option Err × T → Returned
  finish_event m (process_err, p) = add_payload m process_err (codec.new_any p)

  abbrev pub process_object : List (Processor T) → Notification → Result T → Returned
  process_object ps m (ok p) = finish_event m (run_processors ps p)
  process_object ps m (err e) =
      returned [] (some (new (codes "failed to unmarshal object yaml: " ++ message e)))
  process_object ps m panicked = panic

  abbrev pub decode_object : List (Processor T) → Notification → Result Bytes → Returned
  decode_object ps m (ok b) = process_object ps m (codec.from_yaml b)
  decode_object ps m (err e) = returned [] (some (wrapped (codes "failed to get GCS object: ") e))
  decode_object ps m panicked = panic

  module _ {W : Type 0} (h : EventHandler T W) where
    -- `generatePmapEventBytes`
    unfoldable pub generate_pmap_event_bytes : Notification → Returned
    generate_pmap_event_bytes m =
        decode_object h.processors m (get_gcs_object_bytes h.client m.attributes)

    abbrev sent : Bytes → Option Err × W → Result (Unit {0}) × W
    sent text (none, w) = (ok tt, w)
    sent text (some e, w) = (err (wrapped text e), w)

    -- The part of `Handle` behind the call of `generatePmapEventBytes`.
    unfoldable pub send_event : Returned → W → Result (Unit {0}) × W
    send_event (returned event_bytes none) w =
        sent (codes "failed to send succuss event downstream: ")
          (h.success_messenger.send event_bytes [] w)
    send_event (returned event_bytes (some e)) w =
        if is e
        then sent (codes "failed to send failure event downstream: ")
            (h.failure_messenger.send event_bytes ((attr_key_process_err, message e) ∷ []) w)
        else (err e, w)
    send_event panic w = (panicked, w)

    -- `Handle`
    unfoldable pub handle : Notification → W → Result (Unit {0}) × W
    unfolding send_event
    handle m w = send_event (generate_pmap_event_bytes m) w
