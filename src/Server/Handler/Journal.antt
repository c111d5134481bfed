-- ===== src/Server/Handler/Journal.antt =====
-- What `Handle` tries to publish, with topics whose answers depend on all that was tried before.
use mathlib.Core.List.{append-nil}
use pmap.Base.{
  ◌≡◌, ◌≢◌, ◌↔◌, ◌⊎◌, inl, inr, refl, ◌∙◌, ap, Option, none, some, List, [], ◌∷◌, ◌++◌, Bytes,
  arith, Bool-cases,
}
use pmap.Base.Dict.{Dict}
use pmap.Errors.{Err, is, message, ok}
use pmap.Server.PubSub.{Messenger}
use pmap.Server.Handler.{
  Codec, Storage, EventHandler, Processor, Returned, returned, panic, attr_key_process_err, sent,
  send_event,
}
use pmap.Server.Handler.Routes.{Sent, success, failure, Due}

-- What was tried, the first one first: a message, and what its topic answered.
abbrev pub Attempts : Type 0
Attempts = List (Sent × Option Err)

-- A messenger whose answer may depend on all that was tried before.
abbrev pub journal :
    (Bytes → Dict Bytes → Sent) → (Attempts → Sent → Option Err) → Messenger Attempts
journal kind answer = record {
  send = λ content attr w. let s = kind content attr in (answer w s, w ++ (s, answer w s) ∷ []);
}

module _ {T : Type 0} where
  abbrev pub journaled :
      Storage → List (Processor T) → (Attempts → Sent → Option Err) → EventHandler T Attempts
  journaled client ps answer = record {
    client = client;
    processors = ps;
    success_messenger = journal success answer;
    failure_messenger = journal failure answer;
  }

-- The messages that were accepted.
abbrev pub accepted : Attempts → List Sent
accepted [] = []
accepted ((s, none) ∷ w) = s ∷ accepted w
accepted ((s, some e) ∷ w) = accepted w

accepted-append : (w v : Attempts) → accepted (w ++ v) ≡ accepted w ++ accepted v
accepted-append [] v = refl
accepted-append ((s, none) ∷ w) v = ap (λ l. s ∷ l) (accepted-append w v)
accepted-append ((s, some e) ∷ w) v = accepted-append w v

pub accepted-taken :
    (w : Attempts) (s : Sent) → accepted (w ++ (s, none) ∷ []) ≡ accepted w ++ s ∷ []
accepted-taken w s = accepted-append w _

pub accepted-refused :
    (w : Attempts) (s : Sent) (e : Err) → accepted (w ++ (s, some e) ∷ []) ≡ accepted w
accepted-refused w s e = accepted-append w _ ∙ append-nil (accepted w)

pub Due-cases : (r : Returned) → ((s : Sent) × Due r s) ⊎ ((s : Sent) → Due r s → ⊥)
Due-cases panic = inr (λ s due. due)
Due-cases (returned b none) = inl (success b [], refl)
Due-cases (returned b (some e)) = elim (Bool-cases (is e)) [
  | inl facing ↦ inl (failure b ((attr_key_process_err, message e) ∷ []), (facing, refl))
  | inr inner ↦ inr (λ s (facing, _). ground arith)
]

module _ {T Payload Time : Type 0} (codec : Codec T Payload Time) (client : Storage)
    (ps : List (Processor T)) (answer : Attempts → Sent → Option Err) where
  abbrev pub server : EventHandler T Attempts
  server = journaled client ps answer

  sent_lem :
      (text : Bytes) (r : Option Err × Attempts)
      → let out = sent codec server text r in (out.1 ≡ r.1) × ((out.0 ≡ ok tt) ↔ (r.0 ≡ none))
  sent_lem text (none, w) = (refl, (λ _. refl, λ _. refl))
  sent_lem text (some e, w) = (refl, (λ h. absurd (cc), λ h. absurd (cc)))

  -- What is due is tried, as the one message, and the topic's answer is the result.
  pub send_event-Due :
      (r : Returned) (w : Attempts) (s : Sent)
      → Due r s
      → let out = send_event codec server r w in
        (out.1 ≡ w ++ (s, answer w s) ∷ []) × ((out.0 ≡ ok tt) ↔ (answer w s ≡ none))
  unfolding send_event
  send_event-Due panic w s due = absurd due
  send_event-Due (returned b none) w s due = rw due (sent_lem _ _)
  send_event-Due (returned b (some e)) w s (facing, same) = rw (facing, same) (sent_lem _ _)

  -- Where nothing is due, nothing is tried, and the call fails.
  pub send_event_not-Due :
      (r : Returned) (w : Attempts)
      → ((s : Sent) → Due r s → ⊥)
      → let out = send_event codec server r w in (out.1 ≡ w) × (out.0 ≢ ok tt)
  unfolding send_event
  send_event_not-Due panic w free = (refl, λ h. cc)
  send_event_not-Due (returned b none) w free = absurd (free _ refl)
  send_event_not-Due (returned b (some e)) w free = elim (Bool-cases (is e)) [
    | inl facing ↦ absurd (free _ (facing, refl))
    | inr inner ↦ rw inner (refl, λ h. cc)
  ]
