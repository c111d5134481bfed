-- ===== src/Server/Http/Status.antt =====
-- The status that tells the subscription to deliver again, or not.
use pmap.Base.{◌≡◌, ◌≢◌, ◌↔◌, refl, Bytes, codes, arith}
use pmap.Errors.{Result, ok, err, panicked}
use pmap.Go.Io.{Reader, read_all_limited}
use pmap.Server.Handler.{
  Codec, EventHandler, PubSubMessage, http_request_size_limit_in_bytes, handle,
}
use pmap.Server.Http.{
  Response, response, status_created, status_bad_request, notification, handled, respond,
  decode_body, http_handler,
}

abbrev pub created : Response
created = response status_created (codes "OK")

pub handled_iff :
    {W : Type 0} (r : Result (Unit {0})) (w : W) → ((handled (r, w)).0 ≡ created) ↔ (r ≡ ok tt)
handled_iff (ok tt) w = (λ _. refl, λ _. refl)
handled_iff (err e) w = (λ h. absurd (ground arith), λ h. absurd (cc))
handled_iff panicked w = (λ h. absurd (cc), λ h. absurd (cc))

handled_not_bad :
    {W : Type 0} (r : Result (Unit {0})) (w : W) {text : Bytes}
    → (handled (r, w)).0 ≢ response status_bad_request text
handled_not_bad (ok tt) w h = ground arith
handled_not_bad (err e) w h = ground arith
handled_not_bad panicked w h = cc

module _ {T Payload Time W : Type 0} (codec : Codec T Payload Time) (h : EventHandler T W) where
  respond_iff :
      (r : Result PubSubMessage) (w : W)
      → ((respond codec h r w).0 ≡ created)
        ↔ ((m : PubSubMessage) × (r ≡ ok m) × ((handle codec h (notification m) w).0 ≡ ok tt))
  respond_iff (ok m) w =
      let (to, from) =
        handled_iff (handle codec h (notification m) w).0 (handle codec h (notification m) w).1 in
      (λ e. (m, refl, to e), λ (m', same, e). from (ground arith))
  respond_iff (err x) w = (λ e. absurd (ground arith), λ (m, same, _). absurd (cc))
  respond_iff panicked w = (λ e. absurd (cc), λ (m, same, _). absurd (cc))

  -- The answer is 201 with the text OK exactly if the body, cut at its limit, is read, it decodes to a
  -- message, and `Handle` returns nil for that message.
  pub http_handler-created_iff :
      (body : Reader) (w : W)
      → ((http_handler codec h body w).0 ≡ created) ↔ (
          (b : Bytes) × (m : PubSubMessage) × (read_all_limited http_request_size_limit_in_bytes
              body
            ≡ ok b)
          × (codec.unmarshal_request b ≡ ok m)
          × ((handle codec h (notification m) w).0 ≡ ok tt))
  unfolding http_handler
  http_handler-created_iff body w = go (read_all_limited http_request_size_limit_in_bytes body)
    where
      go :
          (r : Result Bytes)
          → ((decode_body codec h r w).0 ≡ created) ↔ (
              (b : Bytes) × (m : PubSubMessage) × (r ≡ ok b)
              × (codec.unmarshal_request b ≡ ok m)
              × ((handle codec h (notification m) w).0 ≡ ok tt))
      go (ok b) =
          let (to, from) = respond_iff (codec.unmarshal_request b) w in
          (
            λ e. let (m, decoded, done) = to e in (b, m, refl, decoded, done),
            λ (b', m, same, decoded, done). from (m, ground arith, done),
          )
      go (err x) = (λ e. absurd (ground arith), λ (b, m, same, _, _). absurd (cc))
      go panicked = (λ e. absurd (cc), λ (b, m, same, _, _). absurd (cc))

  -- A request that is answered by 400 has sent nothing: the world is as it was.
  pub http_handler-bad_request :
      (body : Reader) (w : W) {text : Bytes}
      → (http_handler codec h body w).0 ≡ response status_bad_request text
      → (http_handler codec h body w).1 ≡ w
  unfolding http_handler
  http_handler-bad_request body w {text} e =
      go (read_all_limited http_request_size_limit_in_bytes body) e
    where
      answer :
          (r : Result PubSubMessage)
          → (respond codec h r w).0 ≡ response status_bad_request text
          → (respond codec h r w).1 ≡ w
      answer (ok m) e = absurd (handled_not_bad _ _ e)
      answer (err x) e = refl
      answer panicked e = refl

      go :
          (r : Result Bytes)
          → (decode_body codec h r w).0 ≡ response status_bad_request text
          → (decode_body codec h r w).1 ≡ w
      go (ok b) e = answer (codec.unmarshal_request b) e
      go (err x) e = refl
      go panicked e = refl
