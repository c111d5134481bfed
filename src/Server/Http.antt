-- ===== src/Server/Http.antt =====
-- `HTTPHandler` of pkg/server/event_handler.go.
pub mod Status
pub mod Deliveries
pub mod Redelivery
pub mod Messengers
pub mod Topics
pub mod Published
use pmap.Base.{ℕ, ◌++◌, [], ◌∷◌, Bytes, codes}
use pmap.Errors.{Err, message, Result, ok, err, panicked}
use pmap.Go.Io.{Reader, read_all_limited}
use pmap.Server.Handler.{
  Codec, EventHandler, Notification, PubSubMessage, http_request_size_limit_in_bytes, handle,
}

-- What the client gets: a status and a body, or a connection that a panic closed.
pub data Response : Type 0 where
  response : ℕ → Bytes → Response
  aborted : Response

abbrev pub status_created : ℕ
status_created = 201

abbrev pub status_bad_request : ℕ
status_bad_request = 400

abbrev pub status_internal_server_error : ℕ
status_internal_server_error = 500

-- `http.Error`
abbrev pub http_error : Err → ℕ → Response
http_error e code = response code (message e ++ b'\n' ∷ [])

abbrev pub notification : PubSubMessage → Notification
notification m = record { payload = m.payload; attributes = m.attributes }

module _ {W : Type 0} where
  abbrev handled : Result (Unit {0}) × W → Response × W
  handled (ok _, w) = (response status_created (codes "OK"), w)
  handled (err e, w) = (http_error e status_internal_server_error, w)
  handled (panicked, w) = (aborted, w)

module _ {T Payload Time W : Type 0} (codec : Codec T Payload Time) (h : EventHandler T W) where
  abbrev respond : Result PubSubMessage → W → Response × W
  respond (ok m) w = handled (handle codec h (notification m) w)
  respond (err e) w = (http_error e status_bad_request, w)
  respond panicked w = (aborted, w)

  abbrev decode_body : Result Bytes → W → Response × W
  decode_body (ok body) w = respond (codec.unmarshal_request body) w
  decode_body (err e) w = (http_error e status_bad_request, w)
  decode_body panicked w = (aborted, w)

  -- `HTTPHandler`, for the body of one request
  unfoldable pub http_handler : Reader → W → Response × W
  http_handler body w = decode_body (read_all_limited http_request_size_limit_in_bytes body) w
