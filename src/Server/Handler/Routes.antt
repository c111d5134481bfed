-- ===== src/Server/Handler/Routes.antt =====
-- Where an event goes: to the success messenger, to the failure messenger, or nowhere.
use pmap.Base.{
  ◌≡◌, ◌↔◌, ◌⊎◌, inl, inr, refl, true, Option, none, some, List, [], ◌∷◌, Bytes, arith, Bool-cases,
}
use pmap.Base.Dict.{Dict}
use pmap.Errors.{Err, is, message, ok}
use pmap.Server.PubSub.{Messenger}
use pmap.Server.Handler.{
  Codec, Storage, EventHandler, Notification, Processor, Returned, returned, panic,
  attr_key_process_err, generate_pmap_event_bytes, send_event, handle,
}

-- A log of the messages that were sent.
pub data Sent : Type 0 where
  success : Bytes → Dict Bytes → Sent
  failure : Bytes → Dict Bytes → Sent

abbrev pub Log : Type 0
Log = List Sent

-- A messenger that writes its messages down, and answers as it likes.
abbrev pub recorder : (Bytes → Dict Bytes → Sent) → (Sent → Option Err) → Messenger Log
recorder kind answer = record {
  send = λ content attr w. (answer (kind content attr), kind content attr ∷ w);
}

module _ {T : Type 0} where
  -- A handler whose two messengers write to one log.
  abbrev pub logged : Storage → List (Processor T) → (Sent → Option Err) → EventHandler T Log
  logged client ps answer = record {
    client = client;
    processors = ps;
    success_messenger = recorder success answer;
    failure_messenger = recorder failure answer;
  }

-- The one message that is due for what `generatePmapEventBytes` returns: none for a panic and for
-- an error that is not user facing.
abbrev pub Due : Returned → Sent → Type 0
Due panic s = ⊥
Due (returned b none) s = s ≡ success b []
Due (returned b (some e)) s =
    (is e ≡ true) × (s ≡ failure b ((attr_key_process_err, message e) ∷ []))

module _ {T Payload Time : Type 0} (codec : Codec T Payload Time) (client : Storage)
    (ps : List (Processor T)) (answer : Sent → Option Err) where
  send_event-acknowledged_iff :
      (r : Returned) (w : Log)
      → let out = send_event codec (logged client ps answer) r w in
        (out.0 ≡ ok tt) ↔ ((s : Sent) × Due r s × (answer s ≡ none) × (out.1 ≡ s ∷ w))
  unfolding send_event
  send_event-acknowledged_iff panic w = (λ e. absurd (cc), λ (s, due, _, _). absurd due)
  send_event-acknowledged_iff (returned b none) w =
      (λ e. (success b [], refl, ground arith, ground arith), λ (s, due, took, out). ground arith)
  send_event-acknowledged_iff (returned b (some e)) w = (
    λ h. (
      failure b ((attr_key_process_err, message e) ∷ []),
      (ground arith, refl),
      ground arith,
      ground arith,
    ),
    λ (s, due, took, out). ground arith,
  )

  -- With two messengers that log what they send, and that accept or refuse it as they like,
  -- `Handle` returns nil exactly if the message that is due was sent, as the only one, and was
  -- accepted. A success is due without attributes where the event is made without an error, a
  -- failure with the error's text where the error is user facing, and nothing for any other error
  -- or a panic.
  pub handle-acknowledged_iff :
      (m : Notification) (w : Log)
      → let h = logged client ps answer in
        ((handle codec h m w).0 ≡ ok tt) ↔ (
          (s : Sent) × Due (generate_pmap_event_bytes codec h m) s
          × (answer s ≡ none)
          × ((handle codec h m w).1 ≡ s ∷ w))
  unfolding handle
  handle-acknowledged_iff m w =
      send_event-acknowledged_iff (generate_pmap_event_bytes codec (logged client ps answer) m) w

  send_event-log :
      (r : Returned) (w : Log)
      → let out = (send_event codec (logged client ps answer) r w).1 in
        (out ≡ w) ⊎ ((s : Sent) × Due r s × (out ≡ s ∷ w))
  unfolding send_event
  send_event-log panic w = inl refl
  send_event-log (returned b none) w = inr (success b [], refl, ground arith)
  send_event-log (returned b (some e)) w = elim (Bool-cases (is e)) [
    | inl facing ↦
        inr (failure b ((attr_key_process_err, message e) ∷ []), (facing, refl), ground arith)
    | inr inner ↦ inl (rw inner)
  ]
