-- ===== src/Server/Handler/Messengers.antt =====
-- The handler of pkg/server/event_handler.go over other messengers, which do the same in a world that
-- shows less.
use pmap.Base.{◌≡◌, refl, ◌∙◌, ap, inl, inr, Option, none, some, [], ◌∷◌, Bytes, codes, Bool-cases}
use pmap.Base.Dict.{Dict}
use pmap.Errors.{Err, is, message}
use pmap.Server.PubSub.{Messenger}
use pmap.Server.Handler.{
  Codec, EventHandler, Notification, Returned, returned, panic, attr_key_process_err,
  generate_pmap_event_bytes, sent, send_event, handle,
}

-- The result, and what the world shows.
abbrev pub over : {A W V : Type 0} → (W → V) → A × W → A × V
over view (a, w) = (a, view w)

-- The second messenger does in the view what the first one does in the world.
abbrev pub Follows : {W V : Type 0} → (W → V) → Messenger W → Messenger V → Type 0
Follows {W = W} view m m' =
    (content : Bytes) (attr : Dict Bytes) (w : W)
    → m'.send content attr (view w) ≡ over view (m.send content attr w)

module _ {T Payload Time W V : Type 0} (codec : Codec T Payload Time) (h : EventHandler T W)
    (view : W → V) (success failure : Messenger V) where
  -- The handler with other messengers.
  abbrev pub with_messengers : EventHandler T V
  with_messengers = record {
    client = h.client;
    processors = h.processors;
    success_messenger = success;
    failure_messenger = failure;
  }

  sent-over :
      (text : Bytes) (r : Option Err × W)
      → sent codec with_messengers text (over view r) ≡ over view (sent codec h text r)
  sent-over text (none, w) = refl
  sent-over text (some e, w) = refl

  module _ (follows : Follows view h.success_messenger success)
      (follows_failure : Follows view h.failure_messenger failure) where
    send_event-over :
        (r : Returned) (w : W)
        → send_event codec with_messengers r (view w) ≡ over view (send_event codec h r w)
    unfolding send_event
    send_event-over panic w = refl
    send_event-over (returned b none) w =
        ap (sent codec with_messengers (codes "failed to send succuss event downstream: "))
          (follows b [] w)
        ∙ sent-over _ _
    send_event-over (returned b (some e)) w = elim (Bool-cases (is e)) [
      | inl facing ↦
          let attrs = (attr_key_process_err, message e) ∷ [] in
          rw facing (
            ap (sent codec with_messengers (codes "failed to send failure event downstream: "))
              (follows_failure b attrs w)
            ∙ sent-over _ _)
      | inr inner ↦ rw inner refl
    ]

    -- `Handle` over the second messengers does in the view what it does over the first ones.
    pub handle-over :
        (m : Notification) (w : W)
        → handle codec with_messengers m (view w) ≡ over view (handle codec h m w)
    unfolding handle generate_pmap_event_bytes
    handle-over m w = send_event-over (generate_pmap_event_bytes codec h m) w
