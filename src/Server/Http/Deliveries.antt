-- ===== src/Server/Http/Deliveries.antt =====
-- Requests to `HTTPHandler` of pkg/server/event_handler.go, one after the other, and what the topics
-- accept for them.
use mathlib.Core.List.{append-nil, append_assoc}
use pmap.Base.{
  ◌≡◌, ◌≢◌, ◌↔◌, ◌⊎◌, inl, inr, refl, sym, ◌∙◌, ap, Option, none, some, List, [], ◌∷◌, ◌++◌, Bytes,
  arith,
}
use pmap.Errors.{Err, Result, ok, err, panicked}
use pmap.Go.Io.{Reader, read_all_limited}
use pmap.Server.Handler.{
  Codec, Storage, Processor, PubSubMessage, Returned, generate_pmap_event_bytes, send_event, handle,
  http_request_size_limit_in_bytes,
}
use pmap.Server.Handler.Routes.{Sent, Due}
use pmap.Server.Handler.Journal.{
  Attempts, server, accepted, accepted-taken, accepted-refused, Due-cases, send_event-Due,
  send_event_not-Due,
}
use pmap.Server.Http.{Response, notification, handled, respond, decode_body, http_handler}
use pmap.Server.Http.Status.{created, handled_iff}

handled-world : {W : Type 0} (r : Result (Unit {0}) × W) → (handled r).1 ≡ r.1
handled-world (ok x, w) = refl
handled-world (err e, w) = refl
handled-world (panicked, w) = refl

module _ {T Payload Time : Type 0} (codec : Codec T Payload Time) (client : Storage)
    (ps : List (Processor T)) (answer : Attempts → Sent → Option Err) where
  -- The answer to a request, and what was tried behind it.
  abbrev pub served : Reader → Attempts → Response × Attempts
  served body w = http_handler codec (server codec client ps answer) body w

  abbrev event : PubSubMessage → Returned
  event m = generate_pmap_event_bytes codec (server codec client ps answer) (notification m)

  -- The body is read and decoded, and `s` is the message that is due for it.
  abbrev pub Wanted : Reader → Sent → Type 0
  Wanted body s =
      (b : Bytes) × (m : PubSubMessage) × (read_all_limited http_request_size_limit_in_bytes body
        ≡ ok b)
      × (codec.unmarshal_request b ≡ ok m)
      × Due (event m) s

  -- The message that is wanted is tried, and 201 is answered exactly if it is accepted.
  pub http_handler-Wanted :
      (body : Reader) (w : Attempts) (s : Sent)
      → Wanted body s
      → ((served body w).1 ≡ w ++ (s, answer w s) ∷ [])
        × (((served body w).0 ≡ created) ↔ (answer w s ≡ none))
  unfolding http_handler handle
  http_handler-Wanted body w s (b, m, read, decoded, due) =
      let r = send_event codec (server codec client ps answer) (event m) w in
      let (tried, (to, from)) = send_event-Due codec client ps answer (event m) w s due in
      let (up, down) = handled_iff r.0 r.1 in
      rw (read, decoded) (handled-world r ∙ tried, (λ h. to (up h), λ h. down (from h)))

  -- Nothing is tried for the request, and the answer is not 201.
  abbrev Ignored : (Attempts → Response × Attempts) → Type 0
  Ignored run = (w : Attempts) → ((run w).1 ≡ w) × ((run w).0 ≢ created)

  respond_cases :
      (r : Result PubSubMessage)
      → ((s : Sent) × (m : PubSubMessage) × (r ≡ ok m) × Due (event m) s)
        ⊎ Ignored (respond codec (server codec client ps answer) r)
  unfolding handle
  respond_cases (ok m) = elim (Due-cases (event m)) [
    | inl (s, due) ↦ inl (s, m, refl, due)
    | inr free ↦ inr λ w.
        let r = send_event codec (server codec client ps answer) (event m) w in
        let (still, bad) = send_event_not-Due codec client ps answer (event m) w free in
        (handled-world r ∙ still, λ h. bad ((handled_iff r.0 r.1).0 h))
  ]
  respond_cases (err e) = inr (λ w. (refl, λ h. ground arith))
  respond_cases panicked = inr (λ w. (refl, λ h. cc))

  decode_body_cases :
      (r : Result Bytes)
      → ((s : Sent) × (b : Bytes) × (m : PubSubMessage) × (r ≡ ok b)
          × (codec.unmarshal_request b ≡ ok m)
          × Due (event m) s)
        ⊎ Ignored (decode_body codec (server codec client ps answer) r)
  decode_body_cases (ok b) = elim (respond_cases (codec.unmarshal_request b)) [
    | inl (s, m, decoded, due) ↦ inl (s, b, m, refl, decoded, due)
    | inr ignored ↦ inr ignored
  ]
  decode_body_cases (err e) = inr (λ w. (refl, λ h. ground arith))
  decode_body_cases panicked = inr (λ w. (refl, λ h. cc))

  -- A request wants a message, or it is ignored.
  pub Wanted-cases : (body : Reader) → ((s : Sent) × Wanted body s) ⊎ Ignored (served body)
  unfolding http_handler
  Wanted-cases body =
      elim (decode_body_cases (read_all_limited http_request_size_limit_in_bytes body)) [
        | inl (s, b, m, read, decoded, due) ↦ inl (s, (b, m, read, decoded, due))
        | inr ignored ↦ inr ignored
      ]

  -- The requests, one after the other: their answers, and all that was tried.
  abbrev pub serve : List Reader → Attempts → List Response × Attempts
  serve [] w = ([], w)
  serve (body ∷ bodies) w =
      let out = served body w in let rest = serve bodies out.1 in (out.0 ∷ rest.0, rest.1)

  -- The messages that are wanted by the requests that were answered by 201, in their order.
  pub data Acked : List Reader → List Response → List Sent → Type 0 where
    none_left : Acked [] [] []
    acked :
        {body : Reader} {bodies : List Reader} {r : Response} {rs : List Response} {s : Sent}
        {ss : List Sent}
        → r ≡ created
        → Wanted body s
        → Acked bodies rs ss
        → Acked (body ∷ bodies) (r ∷ rs) (s ∷ ss)
    not_acked :
        {body : Reader} {bodies : List Reader} {r : Response} {rs : List Response} {ss : List Sent}
        → r ≢ created
        → Acked bodies rs ss
        → Acked (body ∷ bodies) (r ∷ rs) ss

  -- Whatever requests come, in whatever order and however often, and whatever the topics answer:
  -- what the topics have accepted by the end is what they had accepted before, and one message
  -- behind it for each request that is answered by 201, the one that is due for it, in the order of
  -- the requests; nothing is accepted for any other request.
  pub serve-Acked :
      (bodies : List Reader) (w : Attempts)
      → (ss : List Sent) × Acked bodies (serve bodies w).0 ss
        × (accepted (serve bodies w).1 ≡ accepted w ++ ss)
  serve-Acked [] w = ([], none_left, sym (append-nil (accepted w)))
  serve-Acked (body ∷ bodies) w =
      let (ss, rest, all) = serve-Acked bodies (served body w).1 in
      elim (Wanted-cases body) [
        | inl (s, wanted) ↦ step s wanted (answer w s) refl ss rest all
        | inr ignored ↦
            let (still, bad) = ignored w in
            (ss, not_acked bad rest, all ∙ ap (λ v. accepted v ++ ss) still)
      ]
    where
      step :
          (s : Sent) (wanted : Wanted body s) (a : Option Err)
          → answer w s ≡ a
          → (ss : List Sent) → Acked bodies (serve bodies (served body w).1).0 ss
          → accepted (serve bodies (served body w).1).1 ≡ accepted (served body w).1 ++ ss
          → (ss : List Sent) × Acked (body ∷ bodies) (serve (body ∷ bodies) w).0 ss
            × (accepted (serve (body ∷ bodies) w).1 ≡ accepted w ++ ss)
      step s wanted none e ss rest all =
          let (tried, (_, down)) = http_handler-Wanted body w s wanted in
          let same : accepted (served body w).1 ≡ accepted w ++ s ∷ [] =
            ap accepted tried ∙ ap (λ a. accepted (w ++ (s, a) ∷ [])) e ∙ accepted-taken w s in
          (
            s ∷ ss,
            acked (down e) wanted rest,
            all ∙ ap (λ l. l ++ ss) same ∙ append_assoc (accepted w) (s ∷ []) ss,
          )
      step s wanted (some x) e ss rest all =
          let (tried, (up, _)) = http_handler-Wanted body w s wanted in
          let same : accepted (served body w).1 ≡ accepted w =
            ap accepted tried ∙ ap (λ a. accepted (w ++ (s, a) ∷ [])) e ∙ accepted-refused w s x in
          (ss, not_acked (λ h. cc (up h)) rest, all ∙ ap (λ l. l ++ ss) same)
