-- ===== src/Server/Http/Redelivery.antt =====
-- One request to `HTTPHandler` of pkg/server/event_handler.go, which is sent again until the answer
-- is 201. From one delivery to the next, what the bucket holds and what the processors answer may
-- change; while one delivery is handled, they stay as they are.
use mathlib.Core.Path.{subst}
use pmap.Base.{◌≡◌, ◌≢◌, inl, inr, refl, sym, ◌∙◌, ap, Option, none, some, List, [], ◌∷◌, ◌++◌}
use pmap.Errors.{Err}
use pmap.Go.Io.{Reader}
use pmap.Server.Handler.{Codec, Storage, Processor}
use pmap.Server.Handler.Routes.{Sent}
use pmap.Server.Handler.Journal.{Attempts, accepted, accepted-taken, accepted-refused}
use pmap.Server.Http.{Response}
use pmap.Server.Http.Status.{created}
use pmap.Server.Http.Deliveries.{served, Wanted, http_handler-Wanted, Wanted-cases}

-- What a delivery meets: the bucket, and the processors with what they look up.
pub record Meets (T : Type 0) : Type 0 where
  pub client : Storage
  pub processors : List (Processor T)

module _ {T Payload Time : Type 0} (codec : Codec T Payload Time)
    (answer : Attempts → Sent → Option Err) (body : Reader) where
  abbrev out : Meets T → Attempts → Response × Attempts
  out m w = served codec m.client m.processors answer body w

  -- `s` is the message that is due for the request when it meets `m`.
  abbrev pub DueFor : Meets T → Sent → Type 0
  DueFor m s = Wanted codec m.client m.processors answer body s

  -- The request is sent again, once for each of the deliveries at most, up to an answer 201, for the
  -- delivery that meets `m`.
  pub data Delivered : List (Meets T) → Meets T → Attempts → Attempts → Type 0 where
    confirmed :
        {m : Meets T} {ms : List (Meets T)} {w : Attempts}
        → (out m w).0 ≡ created
        → Delivered (m ∷ ms) m w (out m w).1
    again :
        {m last : Meets T} {ms : List (Meets T)} {w v : Attempts}
        → (out m w).0 ≢ created
        → Delivered ms last (out m w).1 v
        → Delivered (m ∷ ms) last w v

  -- At one of the deliveries, the topics accept the message `s` that is due there. Before it, the
  -- topics refuse what is due, or nothing is due: the object cannot be read, say.
  pub data AcceptedWithin (s : Sent) : List (Meets T) → Attempts → Type 0 where
    at_once :
        {m : Meets T} {ms : List (Meets T)} {w : Attempts}
        → DueFor m s
        → answer w s ≡ none
        → AcceptedWithin s (m ∷ ms) w
    later :
        {m : Meets T} {ms : List (Meets T)} {w : Attempts} {t : Sent} {e : Err}
        → DueFor m t
        → answer w t ≡ some e
        → AcceptedWithin s ms (w ++ (t, some e) ∷ [])
        → AcceptedWithin s (m ∷ ms) w
    not_due :
        {m : Meets T} {ms : List (Meets T)} {w : Attempts}
        → ((t : Sent) → DueFor m t → ⊥)
        → AcceptedWithin s ms w
        → AcceptedWithin s (m ∷ ms) w

  not_confirmed :
      (m : Meets T) (w : Attempts) (s : Sent) {e : Err}
      → DueFor m s
      → answer w s ≡ some e
      → ((out m w).0 ≢ created) × ((out m w).1 ≡ w ++ (s, some e) ∷ [])
  not_confirmed m w s wanted refused =
      let (tried, (up, _)) =
        http_handler-Wanted codec m.client m.processors answer body w s wanted in
      (λ h. cc (up h), tried ∙ ap (λ a. w ++ (s, a) ∷ []) refused)

  taken :
      (m : Meets T) (w : Attempts) (s : Sent)
      → DueFor m s
      → answer w s ≡ none
      → ((out m w).0 ≡ created) × (accepted (out m w).1 ≡ accepted w ++ s ∷ [])
  taken m w s wanted took =
      let (tried, (_, down)) =
        http_handler-Wanted codec m.client m.processors answer body w s wanted in
      (
        down took,
        ap accepted tried ∙ ap (λ a. accepted (w ++ (s, a) ∷ [])) took ∙ accepted-taken w s,
      )

  ignored :
      (m : Meets T) (w : Attempts)
      → ((t : Sent) → DueFor m t → ⊥)
      → ((out m w).1 ≡ w) × ((out m w).0 ≢ created)
  ignored m w none_due = elim (Wanted-cases codec m.client m.processors answer body) [
    | inl (t, wanted) ↦ absurd (none_due t wanted)
    | inr nothing ↦ nothing w
  ]

  -- A delivery that is not answered by 201 leaves what the topics have accepted.
  accepted-again :
      (m : Meets T) (w : Attempts) → (out m w).0 ≢ created → accepted (out m w).1 ≡ accepted w
  accepted-again m w not_yet = elim (Wanted-cases codec m.client m.processors answer body) [
    | inl (s, wanted) ↦ go s wanted (answer w s) refl
    | inr nothing ↦ ap accepted (nothing w).0
  ]
    where
      go :
          (s : Sent)
          → DueFor m s
          → (a : Option Err) → answer w s ≡ a
          → accepted (out m w).1 ≡ accepted w
      go s wanted none took = absurd (not_yet (taken m w s wanted took).0)
      go s wanted (some e) refused =
          ap accepted (not_confirmed m w s wanted refused).1 ∙ accepted-refused w s e

  -- Once a request is answered by 201, after whatever other answers to it, and whatever the bucket
  -- and the processors gave then, the topics have accepted one message for it, the one that is due
  -- at the delivery that is answered by 201, and no other, however often the request was sent.
  pub Delivered-accepted :
      {ms : List (Meets T)} {m : Meets T} {w v : Attempts}
      → Delivered ms m w v
      → (s : Sent) × DueFor m s × (accepted v ≡ accepted w ++ s ∷ [])
  Delivered-accepted {m} {w} (confirmed yes_now) =
      elim (Wanted-cases codec m.client m.processors answer body) [
        | inl (s, wanted) ↦
            let (_, (up, _)) =
              http_handler-Wanted codec m.client m.processors answer body w s wanted in
            (s, wanted, (taken m w s wanted (up yes_now)).1)
        | inr nothing ↦ absurd ((nothing w).1 yes_now)
      ]
  Delivered-accepted {w = w} (again {m = first} not_yet rest) =
      let (s, wanted, all) = Delivered-accepted rest in
      (s, wanted, all ∙ ap (λ l. l ++ s ∷ []) (accepted-again first w not_yet))

  -- If at one of the deliveries of a request the topics accept the message that is due for it there,
  -- the request is answered by 201 at one of them, and by then that message is accepted, once, and
  -- no other; before, the topics may refuse what is due, and the bucket and the processors may fail.
  pub AcceptedWithin-Delivered :
      {s : Sent} {ms : List (Meets T)} {w : Attempts}
      → AcceptedWithin s ms w
      → (m : Meets T) × (v : Attempts) × Delivered ms m w v
        × DueFor m s
        × (accepted v ≡ accepted w ++ s ∷ [])
  AcceptedWithin-Delivered {s} {w = w} (at_once {m} wanted took) =
      let (yes_now, all) = taken m w s wanted took in
      (m, (out m w).1, confirmed yes_now, wanted, all)
  AcceptedWithin-Delivered {s} {w = w} (later {m = first} {ms} {t} {e} due refused rest) =
      let (bad, tried) = not_confirmed first w t due refused in
      let (m, v, run, wanted, all) = AcceptedWithin-Delivered rest in
      (
        m,
        v,
        again bad (subst (λ u. Delivered ms m u v) (sym tried) run),
        wanted,
        all ∙ ap (λ l. l ++ s ∷ []) (accepted-refused w t e),
      )
  AcceptedWithin-Delivered {s} {w = w} (not_due {m = first} {ms} none_due rest) =
      let (still, bad) = ignored first w none_due in
      let (m, v, run, wanted, all) = AcceptedWithin-Delivered rest in
      (m, v, again bad (subst (λ u. Delivered ms m u v) (sym still) run), wanted, all)
