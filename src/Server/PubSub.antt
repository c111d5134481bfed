-- ===== src/Server/PubSub.antt =====
-- pkg/server/pubsub.go, and the `Messenger` interface of pkg/server/event_handler.go.
pub mod Limits
pub mod Runes
use pmap.Base.{
  ℕ, Option, none, some, List, [], ◌∷◌, ◌++◌, Bytes, codes, length, take, ltb, if◌then◌else◌,
}
use pmap.Base.Dict.{Dict}
use pmap.Go.Fmt.{decimal}
use pmap.Errors.{Err, plain, wrapped}
use pmap.Errors.Fallible.{Fallible, value, failed}

abbrev pub max_topic_data_bytes : ℕ
max_topic_data_bytes = 10_000_000

abbrev pub max_topic_attr_value_bytes : ℕ
max_topic_attr_value_bytes = 1024

-- `pubsub.Message`
pub record Message : Type 0 where
  pub payload : Bytes
  pub attributes : Dict Bytes

-- `Messenger`: a send changes the world `W` outside, and returns nil or an error.
pub record Messenger (W : Type 0) : Type 0 where
  pub send : Bytes → Dict Bytes → W → Option Err × W

-- `pubsub.Topic`: `Publish`, and `Get` of its result.
pub record Topic (W : Type 0) : Type 0 where
  pub publish : Message → W → Option Err × W

-- The loop over the attributes, which cuts each value in place.
unfoldable pub cut_values : Dict Bytes → Dict Bytes
cut_values [] = []
cut_values ((key, v) ∷ attr) = (key, take max_topic_attr_value_bytes v) ∷ cut_values attr

unfoldable pub too_large : ℕ → Err
unfolding decimal
too_large n = plain (
    codes "data length("
    ++ (decimal n
        ++ (codes ") exceed max size allowed(" ++ (decimal max_topic_data_bytes ++ codes ")"))))

-- `limitedSizeMessage`
unfoldable pub limited_size_message : Bytes → Dict Bytes → Fallible Message
unfolding cut_values
limited_size_message content attr =
    if ltb max_topic_data_bytes (length content)
    then failed (too_large (length content))
    else value (record { payload = content; attributes = cut_values attr })

module _ {W : Type 0} where
  abbrev pub published : Option Err × W → Option Err × W
  published (none, w) = (none, w)
  published (some e, w) =
      (some (wrapped (codes "pubsub failed to get result returned from publish : ") e), w)

  abbrev pub publish_message : Topic W → Fallible Message → W → Option Err × W
  publish_message topic (value m) w = published (topic.publish m w)
  publish_message topic (failed e) w =
      (some (wrapped (codes "pubsub failed to publish message: ") e), w)

  -- `PubSubMessenger.Send`
  unfoldable pub send : Topic W → Bytes → Dict Bytes → W → Option Err × W
  send topic content attr w = publish_message topic (limited_size_message content attr) w

  -- `NewPubSubMessenger`
  unfoldable pub new_pub_sub_messenger : Topic W → Messenger W
  unfolding send
  new_pub_sub_messenger topic = record { send = send topic }
