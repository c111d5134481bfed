-- ===== src/Server/PubSub/Limits.antt =====
-- What the messenger publishes, and what it refuses.
use pmap.Base.{
  ℕ, ◌≤◌, ◌<◌, ◌≡◌, ◌≢◌, ◌↔◌, refl, Bool, true, false, inl, inr, Option, none, some, List, [], ◌∷◌,
  Bytes, arith, length, take, length-take, take_all, ltb, All, Bool-cases, ◌==◌, bytes_eq,
  if◌then◌else◌,
}
use pmap.Base.Dict.{Dict, lookup}
use pmap.Errors.{wrapped}
use pmap.Errors.Fallible.{value}
use pmap.Server.PubSub.{
  max_topic_data_bytes, max_topic_attr_value_bytes, Message, Topic, cut_values, too_large,
  limited_size_message, send,
}

cut_values-All :
    (attr : Dict Bytes) → All (λ kv. length kv.1 ≤ max_topic_attr_value_bytes) (cut_values attr)
unfolding cut_values
cut_values-All [] = tt
cut_values-All ((k, v) ∷ attr) =
    (omega (arith, length-take max_topic_attr_value_bytes v), cut_values-All attr)

abbrev pub cut_value : Option Bytes → Option Bytes
cut_value none = none
cut_value (some v) = some (take max_topic_attr_value_bytes v)

pub lookup-cut_values :
    (k : Bytes) (attr : Dict Bytes) → lookup k (cut_values attr) ≡ cut_value (lookup k attr)
unfolding cut_values lookup
lookup-cut_values k [] = refl
lookup-cut_values k ((j, v) ∷ attr) = ground (arith, lookup-cut_values k attr)

-- A message is made exactly if the data is within the limit. It carries the data unchanged, its
-- attributes have the same keys with each value cut to its first 1024 bytes, and no value is longer.
pub limited_size_message_iff :
    (content : Bytes) (attr : Dict Bytes)
    → ((length content ≤ max_topic_data_bytes) ↔ (
        (m : Message) × (limited_size_message content attr ≡ value m)
        × (m.payload ≡ content)
        × ((k : Bytes) → lookup k m.attributes ≡ cut_value (lookup k attr))
        × All (λ kv. length kv.1 ≤ max_topic_attr_value_bytes) m.attributes))
unfolding limited_size_message
limited_size_message_iff content attr = (
  λ h. (
    record { payload = content; attributes = cut_values attr },
    ground arith,
    refl,
    λ k. lookup-cut_values k attr,
    cut_values-All attr,
  ),
  λ (m, made, _, _, _). ground arith,
)

module _ {W : Type 0} where
  -- Data over the limit is an error, and nothing is published.
  pub send_too_large :
      (topic : Topic W) (content : Bytes) (attr : Dict Bytes) (w : W)
      → max_topic_data_bytes < length content
      → send topic content attr w ≡ (
        some (
            wrapped
              (pmap.Base.codes "pubsub failed to publish message: ")
              (too_large (length content))),
        w,
      )
  unfolding send limited_size_message
  send_too_large topic content attr w h = ground arith

  -- Data within the limit is published once, with the attributes cut, and the send fails exactly if
  -- the publication does.
  pub send_within :
      (topic : Topic W) (content : Bytes) (attr : Dict Bytes) (w : W)
      → length content ≤ max_topic_data_bytes
      → let p = topic.publish (record { payload = content; attributes = cut_values attr }) w in
        ((send topic content attr w).1 ≡ p.1)
        × (((send topic content attr w).0 ≡ none) ↔ (p.0 ≡ none))
  unfolding send limited_size_message
  send_within topic content attr w h =
      elim (Bool-cases (ltb max_topic_data_bytes (length content))) [
        | inl large ↦ absurd (ground arith)
        | inr small ↦ rw small (ground arith)
      ]
