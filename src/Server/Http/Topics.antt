-- ===== src/Server/Http/Topics.antt =====
-- The messengers of pkg/server/pubsub.go over two topics, as the journal of Server/Handler/Journal
-- with answers of its own.
use mathlib.Core.List.{append-nil, append_assoc}
use pmap.Base.{◌≡◌, refl, sym, ◌∙◌, ap, Bool, true, false, Option, none, some, List, [], ◌∷◌, ◌++◌}
use pmap.Errors.{Err}
use pmap.Errors.Fallible.{Fallible, value, failed}
use pmap.Server.PubSub.{
  Message, Topic, limited_size_message, published, publish_message, new_pub_sub_messenger,
}
use pmap.Server.Handler.Routes.{Sent, success, failure}
use pmap.Server.Handler.Journal.{Attempts, journal}
use pmap.Server.Handler.Messengers.{Follows}

pub data Route : Type 0 where
  to_success to_failure : Route

-- What the topics were asked to publish, the first one first, and whether they took it.
abbrev pub Publications : Type 0
Publications = List (Route × Message × Bool)

abbrev is_none : Option Err → Bool
is_none none = true
is_none (some e) = false

abbrev pub taken : Publications → List (Route × Message)
taken [] = []
taken ((r, m, true) ∷ v) = (r, m) ∷ taken v
taken ((r, m, false) ∷ v) = taken v

abbrev pub route_of : Sent → Route
route_of (success c a) = to_success
route_of (failure c a) = to_failure

-- The message that is made of what is sent.
abbrev pub message_of : Sent → Fallible Message
message_of (success c a) = limited_size_message c a
message_of (failure c a) = limited_size_message c a

abbrev pub entry : Route → Fallible Message → Option Err → Publications
entry r (value m) e = (r, m, is_none e) ∷ []
entry r (failed x) e = []

-- What the topics see of what was tried.
abbrev pub view : Attempts → Publications
view [] = []
view ((s, e) ∷ w) = entry (route_of s) (message_of s) e ++ view w

pub view-append : (w v : Attempts) → view (w ++ v) ≡ view w ++ view v
view-append [] v = refl
view-append ((s, e) ∷ w) v =
    ap (λ l. entry (route_of s) (message_of s) e ++ l) (view-append w v)
    ∙ sym (append_assoc (entry (route_of s) (message_of s) e) (view w) (view v))

-- The two topics answer as they like, by all that they were asked before.
module _ (accept : Publications → Route → Message → Option Err) where
  abbrev pub topic : Route → Topic Publications
  topic r = record { publish = λ m v. (accept v r m, v ++ (r, m, is_none (accept v r m)) ∷ []) }

  -- What the messenger over its topic answers.
  abbrev pub answer : Attempts → Sent → Option Err
  answer w s = (publish_message (topic (route_of s)) (message_of s) (view w)).0

  published-entry :
      (r : Route) (m : Message) (v : Publications) (o : Option Err)
      → (published (o, v ++ (r, m, is_none o) ∷ [])).1
        ≡ v ++ entry r (value m) (published (o, v ++ (r, m, is_none o) ∷ [])).0
  published-entry r m v none = refl
  published-entry r m v (some e) = refl

  publish_message-entry :
      (r : Route) (made : Fallible Message) (v : Publications)
      → (publish_message (topic r) made v).1
        ≡ v ++ entry r made (publish_message (topic r) made v).0
  publish_message-entry r (value m) v = published-entry r m v (accept v r m)
  publish_message-entry r (failed e) v = sym (append-nil v)

  view-answer :
      (w : Attempts) (s : Sent)
      → (publish_message (topic (route_of s)) (message_of s) (view w)).1
        ≡ view (w ++ (s, answer w s) ∷ [])
  view-answer w s =
      publish_message-entry (route_of s) (message_of s) (view w)
      ∙ ap (λ l. view w ++ l) (sym (append-nil (entry (route_of s) (message_of s) (answer w s))))
      ∙ sym (view-append w ((s, answer w s) ∷ []))

  -- The messenger over the topic for successes does what the journal does, as the topics see it.
  pub success-Follows :
      Follows view (journal success answer) (new_pub_sub_messenger (topic to_success))
  unfolding new_pub_sub_messenger
  success-Follows content attr w = ap (λ v. (answer w (success content attr), v)) (view-answer w _)

  pub failure-Follows :
      Follows view (journal failure answer) (new_pub_sub_messenger (topic to_failure))
  unfolding new_pub_sub_messenger
  failure-Follows content attr w = ap (λ v. (answer w (failure content attr), v)) (view-answer w _)
