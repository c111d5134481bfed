-- ===== src/Server/Http/Messengers.antt =====
-- `HTTPHandler` of pkg/server/event_handler.go over other messengers.
use pmap.Base.{◌≡◌, refl, ◌∙◌, ap, Bytes}
use pmap.Errors.{Result, ok, err, panicked}
use pmap.Go.Io.{Reader, read_all_limited}
use pmap.Server.PubSub.{Messenger}
use pmap.Server.Handler.{
  Codec, EventHandler, PubSubMessage, http_request_size_limit_in_bytes, handle,
}
use pmap.Server.Handler.Messengers.{over, Follows, with_messengers, handle-over}
use pmap.Server.Http.{notification, handled, respond, decode_body, http_handler}

handled-over :
    {W V : Type 0} (view : W → V) (r : Result (Unit {0}) × W)
    → handled (over view r) ≡ over view (handled r)
handled-over view (ok x, w) = refl
handled-over view (err e, w) = refl
handled-over view (panicked, w) = refl

module _ {T Payload Time W V : Type 0} (codec : Codec T Payload Time) (h : EventHandler T W)
    (view : W → V) (success failure : Messenger V)
    (follows : Follows view h.success_messenger success)
    (follows_failure : Follows view h.failure_messenger failure) where
  abbrev h' : EventHandler T V
  h' = with_messengers codec h view success failure

  respond-over :
      (r : Result PubSubMessage) (w : W)
      → respond codec h' r (view w) ≡ over view (respond codec h r w)
  respond-over (ok m) w =
      ap handled
        (handle-over codec h view success failure follows follows_failure (notification m) w)
      ∙ handled-over view (handle codec h (notification m) w)
  respond-over (err e) w = refl
  respond-over panicked w = refl

  decode_body-over :
      (r : Result Bytes) (w : W)
      → decode_body codec h' r (view w) ≡ over view (decode_body codec h r w)
  decode_body-over (ok b) w = respond-over (codec.unmarshal_request b) w
  decode_body-over (err e) w = refl
  decode_body-over panicked w = refl

  -- The answer to a request is the same, and the world shows what it showed over the first ones.
  pub http_handler-over :
      (body : Reader) (w : W)
      → http_handler codec h' body (view w) ≡ over view (http_handler codec h body w)
  unfolding http_handler
  http_handler-over body w =
      decode_body-over (read_all_limited http_request_size_limit_in_bytes body) w
