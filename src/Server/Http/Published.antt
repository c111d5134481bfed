-- ===== src/Server/Http/Published.antt =====
-- Requests to `HTTPHandler` of pkg/server/event_handler.go, one after the other, with the messengers of
-- pkg/server/pubsub.go: what the topics have taken by the end.
use mathlib.Core.List.{append-nil, append_assoc}
use pmap.Base.{
  ◌≡◌, ◌≢◌, inl, inr, refl, sym, ◌∙◌, ap, ◌⊎◌, true, false, Option, none, some, List, [], ◌∷◌, ◌++◌,
  Bytes,
}
use pmap.Errors.{Err, ok}
use pmap.Errors.Fallible.{Fallible, value, failed}
use pmap.Go.Io.{Reader, read_all_limited}
use pmap.Server.PubSub.{Message, publish_message, new_pub_sub_messenger}
use pmap.Server.Handler.{
  Codec, EventHandler, Storage, Processor, PubSubMessage, generate_pmap_event_bytes,
  http_request_size_limit_in_bytes,
}
use pmap.Server.Handler.Routes.{Sent, Due}
use pmap.Server.Handler.Journal.{Attempts, server}
use pmap.Server.Handler.Messengers.{over}
use pmap.Server.Http.{Response, notification, http_handler}
use pmap.Server.Http.Status.{created}
use pmap.Server.Http.Deliveries.{served, Wanted, Wanted-cases, http_handler-Wanted}
use pmap.Server.Http.Messengers.{http_handler-over}
use pmap.Server.Http.Topics.{
  Route, to_success, to_failure, Publications, taken, entry, route_of, message_of, view,
  view-append, topic, answer, success-Follows, failure-Follows,
}

taken-append : (v u : Publications) → taken (v ++ u) ≡ taken v ++ taken u
taken-append [] u = refl
taken-append ((r, m, true) ∷ v) u = ap (λ l. (r, m) ∷ l) (taken-append v u)
taken-append ((r, m, false) ∷ v) u = taken-append v u

entry-taken :
    (r : Route) (made : Fallible Message) {m : Message}
    → made ≡ value m
    → taken (entry r made none) ≡ (r, m) ∷ []
entry-taken r (value m') h = ap (λ x. (r, x) ∷ []) (cc)
entry-taken r (failed e) h = absurd (cc)

entry-refused : (r : Route) (made : Fallible Message) (e : Err) → taken (entry r made (some e)) ≡ []
entry-refused r (value m) e = refl
entry-refused r (failed x) e = refl

module _ {T Payload Time : Type 0} (codec : Codec T Payload Time) (client : Storage)
    (ps : List (Processor T)) (accept : Publications → Route → Message → Option Err) where
  -- The handler with a messenger for each of the two topics.
  abbrev pub topic_server : EventHandler T Publications
  topic_server = record {
    client = client;
    processors = ps;
    success_messenger = new_pub_sub_messenger (topic accept to_success);
    failure_messenger = new_pub_sub_messenger (topic accept to_failure);
  }

  -- The requests, one after the other: their answers, and what the topics were asked to publish.
  abbrev pub topic_serve : List Reader → Publications → List Response × Publications
  topic_serve [] v = ([], v)
  topic_serve (body ∷ bodies) v =
      let out = http_handler codec topic_server body v in
      let rest = topic_serve bodies out.1 in (out.0 ∷ rest.0, rest.1)

  -- The body is read and decoded, `s` is the message that is due for it, and `m` is made of it.
  abbrev pub WantedMessage : Reader → Sent → Message → Type 0
  WantedMessage body s m =
      (b : Bytes) × (request : PubSubMessage) × (read_all_limited http_request_size_limit_in_bytes
          body
        ≡ ok b)
      × (codec.unmarshal_request b ≡ ok request)
      × Due (generate_pmap_event_bytes codec topic_server (notification request)) s
      × (message_of s ≡ value m)

  -- A message on its topic for each request that was answered by 201, in their order.
  pub data Published : List Reader → List Response → List (Route × Message) → Type 0 where
    nothing : Published [] [] []
    took :
        {body : Reader} {bodies : List Reader} {r : Response} {rs : List Response} {m : Message}
        {ms : List (Route × Message)} (s : Sent)
        → r ≡ created
        → WantedMessage body s m
        → Published bodies rs ms
        → Published (body ∷ bodies) (r ∷ rs) ((route_of s, m) ∷ ms)
    took_not :
        {body : Reader} {bodies : List Reader} {r : Response} {rs : List Response}
        {ms : List (Route × Message)}
        → r ≢ created
        → Published bodies rs ms
        → Published (body ∷ bodies) (r ∷ rs) ms

  made_of_none :
      (r : Route) (made : Fallible Message) (v : Publications)
      → (publish_message (topic accept r) made v).0 ≡ none
      → (m : Message) × (made ≡ value m)
  made_of_none r (value m) v h = (m, refl)
  made_of_none r (failed e) v h = absurd (cc)

  abbrev run : Reader → Attempts → Response × Attempts
  run body w = served codec client ps (answer accept) body w

  topic-over :
      (body : Reader) (w : Attempts)
      → http_handler codec topic_server body (view w) ≡ over view (run body w)
  topic-over body w =
      http_handler-over codec (server codec client ps (answer accept)) view
        (new_pub_sub_messenger (topic accept to_success))
        (new_pub_sub_messenger (topic accept to_failure)) (success-Follows accept)
        (failure-Follows accept) body w

  view-tried :
      (body : Reader) (w : Attempts) (s : Sent) (o : Option Err)
      → (run body w).1 ≡ w ++ (s, o) ∷ []
      → taken (view (run body w).1) ≡ taken (view w) ++ taken (entry (route_of s) (message_of s) o)
  view-tried body w s o tried =
      ap (λ x. taken (view x)) tried
      ∙ ap taken (view-append w ((s, o) ∷ []))
      ∙ taken-append (view w) (view ((s, o) ∷ []))
      ∙ ap (λ l. taken (view w) ++ taken l) (append-nil (entry (route_of s) (message_of s) o))

  request-adds :
      (body : Reader) (w : Attempts)
      → ((s : Sent) × (m : Message) × ((run body w).0 ≡ created)
          × WantedMessage body s m
          × (taken (view (run body w).1) ≡ taken (view w) ++ (route_of s, m) ∷ []))
        ⊎ (((run body w).0 ≢ created) × (taken (view (run body w).1) ≡ taken (view w)))
  unfolding generate_pmap_event_bytes
  request-adds body w = elim (Wanted-cases codec client ps (answer accept) body) [
    | inl (s, wanted) ↦ go s wanted (answer accept w s) refl
    | inr ignored ↦ let (still, bad) = ignored w in inr (bad, ap (λ x. taken (view x)) still)
  ]
    where
      go :
          (s : Sent)
          → Wanted codec client ps (answer accept) body s
          → (o : Option Err) → answer accept w s ≡ o
          → ((s : Sent) × (m : Message) × ((run body w).0 ≡ created)
              × WantedMessage body s m
              × (taken (view (run body w).1) ≡ taken (view w) ++ (route_of s, m) ∷ []))
            ⊎ (((run body w).0 ≢ created) × (taken (view (run body w).1) ≡ taken (view w)))
      go s (b, request, read, decoded, due) none e =
          let wanted : Wanted codec client ps (answer accept) body s =
            (b, request, read, decoded, due) in
          let (tried, (_, down)) =
            http_handler-Wanted codec client ps (answer accept) body w s wanted in
          let (m, made) = made_of_none (route_of s) (message_of s) (view w) e in
          inl (
            s,
            m,
            down e,
            (b, request, read, decoded, due, made),
            view-tried body w s none (tried ∙ ap (λ o. w ++ (s, o) ∷ []) e)
                ∙ ap (λ l. taken (view w) ++ l) (entry-taken (route_of s) (message_of s) made),
          )
      go s wanted (some x) e =
          let (tried, (up, _)) =
            http_handler-Wanted codec client ps (answer accept) body w s wanted in
          inr (
            λ h. cc (up h),
            view-tried body w s (some x) (tried ∙ ap (λ o. w ++ (s, o) ∷ []) e)
                ∙ ap (λ l. taken (view w) ++ l) (entry-refused (route_of s) (message_of s) x)
                ∙ append-nil (taken (view w)),
          )

  serve-view :
      (bodies : List Reader) (w : Attempts)
      → (ms : List (Route × Message)) × Published bodies (topic_serve bodies (view w)).0 ms
        × (taken (topic_serve bodies (view w)).1 ≡ taken (view w) ++ ms)
  serve-view [] w = ([], nothing, sym (append-nil (taken (view w))))
  serve-view (body ∷ bodies) w =
      let (ms, rest, all) = serve-view bodies (run body w).1 in
      rw (topic-over body w) (elim (request-adds body w) [
        | inl (s, m, yes_now, wanted, more) ↦ (
          (route_of s, m) ∷ ms,
          took s yes_now wanted rest,
          all ∙ ap (λ l. l ++ ms) more ∙ append_assoc (taken (view w)) ((route_of s, m) ∷ []) ms,
        )
        | inr (bad, same) ↦ (ms, took_not bad rest, all ∙ ap (λ l. l ++ ms) same)
      ])

  -- With a Pub/Sub messenger for each topic, whatever requests come, in whatever order and however
  -- often, and whatever the topics answer, while the bucket and the processors stay as they are: what
  -- the topics have taken by the end is one message for each request that is answered by 201, in the
  -- order of the requests, on the topic and made of the data and attributes that are due for it;
  -- nothing is taken for any other request.
  pub topic_serve-Published :
      (bodies : List Reader)
      → (ms : List (Route × Message)) × Published bodies (topic_serve bodies []).0 ms
        × (taken (topic_serve bodies []).1 ≡ ms)
  topic_serve-Published bodies = serve-view bodies []
