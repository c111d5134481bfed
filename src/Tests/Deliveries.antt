-- ===== src/Tests/Deliveries.antt =====
-- Requests that are sent again, with a topic that refuses the first message.
use pmap.Base.{
  ◌≡◌, ◌≢◌, refl, arith, Option, none, some, List, [], ◌∷◌, Bytes, bytes_eq, codes, take,
}
use pmap.Base.Dict.{lookup}
use pmap.Errors.{Err, plain, message, is, err}
use pmap.Go.Io.{Reader, read_all_limited}
use pmap.Server.Handler.{
  Storage, generate_pmap_event_bytes, get_gcs_object_bytes, github_source, handle, run_processors,
}
use pmap.Server.Handler.Routes.{Sent, success}
use pmap.Server.Handler.Journal.{Attempts, accepted}
use pmap.Server.Http.{response, http_handler}
use pmap.Server.Http.Status.{created}
use pmap.Server.Http.Deliveries.{Wanted, http_handler-Wanted, serve}
use pmap.Server.Http.Redelivery.{
  Meets, DueFor, Delivered, confirmed, again, AcceptedWithin, at_once, later, not_due,
  Delivered-accepted, AcceptedWithin-Delivered,
}
use pmap.Server.PubSub.{Message, limited_size_message, new_pub_sub_messenger, send}
use pmap.Server.Http.Topics.{Route, to_success, Publications, taken}
use pmap.Server.Http.Published.{topic_serve, Published, topic_serve-Published}
use pmap.Tests.Handler.{codec, client, processors, body, empty_body}

abbrev refusal : Err
refusal = plain (codes "not now")

abbrev answer : Attempts → Sent → Option Err
answer [] s = some refusal
answer (a ∷ w) s = none

abbrev event : Sent
event = success (codes "a!!") []

body-Wanted : Wanted codec client processors answer body event
unfolding generate_pmap_event_bytes get_gcs_object_bytes lookup bytes_eq read_all_limited take
    run_processors github_source
body-Wanted = (codes "a", _, refl, refl, refl)

three_answers : (serve codec client processors answer (body ∷ empty_body ∷ body ∷ []) []).0 ≡ (
    response 500 (codes "failed to send succuss event downstream: not now\n")
    ∷ response 400 (codes "EOF\n")
    ∷ response 201 (codes "OK")
    ∷ [])
unfolding http_handler handle generate_pmap_event_bytes get_gcs_object_bytes lookup bytes_eq
    read_all_limited take run_processors github_source message
three_answers = refl

-- The bucket cannot be read.
abbrev unreadable : Storage
unreadable = record { new_reader = λ bucket object. err (plain (codes "not found")) }

abbrev meets : Storage → Meets Bytes
meets c = record { client = c; processors = processors }

-- At the first delivery the bucket cannot be read, at the second one the topics refuse.
abbrev three : List (Meets Bytes)
three = meets unreadable ∷ meets client ∷ meets client ∷ []

nothing_due : (s : Sent) → DueFor codec answer body (meets unreadable) s → ⊥
unfolding http_handler handle generate_pmap_event_bytes get_gcs_object_bytes lookup bytes_eq
    read_all_limited take run_processors github_source message is
nothing_due s due =
    let tried : ◌≡◌ {A = Attempts} [] ((s, answer [] s) ∷ []) =
      (http_handler-Wanted codec unreadable processors answer body [] s due).0 in
    cc

third_try : AcceptedWithin codec answer body event three []
third_try = not_due nothing_due (later body-Wanted refl (at_once body-Wanted refl))

AcceptedWithin-Delivered_example :
    (m : Meets Bytes) × (v : Attempts) × Delivered codec answer body three m [] v
    × DueFor codec answer body m event
    × (accepted v ≡ event ∷ [])
AcceptedWithin-Delivered_example = AcceptedWithin-Delivered codec answer body third_try

not_created : (text : Bytes) → response 500 text ≢ created
not_created text h = ground arith

third_delivery :
    Delivered codec answer body three
      (meets client)
      []
      ((event, some refusal) ∷ ((event, none) ∷ []))
unfolding http_handler handle generate_pmap_event_bytes get_gcs_object_bytes lookup bytes_eq
    read_all_limited take run_processors github_source message is
third_delivery = again (not_created _) (again (not_created _) (confirmed refl))

Delivered-accepted_example :
    (s : Sent) × DueFor codec answer body (meets client) s × (event ∷ [] ≡ s ∷ [])
Delivered-accepted_example = Delivered-accepted codec answer body third_delivery

-- The topics refuse the first message.
abbrev accept : Publications → Route → Message → Option Err
accept [] r m = some refusal
accept (p ∷ v) r m = none

abbrev requests : List Reader
requests = body ∷ empty_body ∷ body ∷ []

one_taken :
    taken (topic_serve codec client processors accept requests []).1
    ≡ (to_success, record { payload = codes "a!!"; attributes = [] }) ∷ []
unfolding http_handler handle generate_pmap_event_bytes get_gcs_object_bytes lookup bytes_eq
    read_all_limited take run_processors github_source new_pub_sub_messenger limited_size_message
    send
one_taken = refl

topic_serve-Published_example :
    (ms : List (Route × Message)) × Published codec client processors accept requests
      (topic_serve codec client processors accept requests []).0
      ms
    × (taken (topic_serve codec client processors accept requests []).1 ≡ ms)
topic_serve-Published_example = topic_serve-Published codec client processors accept requests
