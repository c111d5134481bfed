-- ===== src/Server/Options/Defaults.antt =====
-- What a new handler is made of.
use pmap.Base.{◌≡◌, refl, Option, none, some, List, [], ◌∷◌, map, codes}
use pmap.Errors.{plain, Result, ok, err}
use pmap.Server.PubSub.{Messenger}
use pmap.Server.Handler.{Storage, Processor}
use pmap.Server.Options.{
  HandlerOpts, HandlerOption, with_storage_client, with_failure_messenger, apply_options, or_noop,
  new_handler,
}

-- The options that the package offers.
pub data Setting (W : Type 0) : Type 0 where
  client : Option Storage → Setting W
  failure : Option (Messenger W) → Setting W

module _ {W : Type 0} where
  abbrev pub to_option : Setting W → HandlerOption W
  to_option (client c) = with_storage_client c
  to_option (failure m) = with_failure_messenger m

  -- The last client, and the last failure messenger, that the settings name.
  abbrev pub last_client : Option Storage → List (Setting W) → Option Storage
  last_client c [] = c
  last_client c (client d ∷ ss) = last_client d ss
  last_client c (failure m ∷ ss) = last_client c ss

  abbrev pub last_failure : Option (Messenger W) → List (Setting W) → Option (Messenger W)
  last_failure m [] = m
  last_failure m (client d ∷ ss) = last_failure m ss
  last_failure m (failure n ∷ ss) = last_failure n ss

  apply_options-map :
      (ss : List (Setting W)) (o : HandlerOpts W)
      → apply_options (map to_option ss) o
        ≡ ok (record {
          client = last_client o.client ss;
          failure_messenger = last_failure o.failure_messenger ss;
        })
  unfolding apply_options with_storage_client with_failure_messenger
  apply_options-map [] o = refl
  apply_options-map (client c ∷ ss) o = apply_options-map ss (record o { client = c })
  apply_options-map (failure m ∷ ss) o = apply_options-map ss (record o { failure_messenger = m })

  module _ {T : Type 0} (new_client : Result Storage) (ps : List (Processor T))
      (ss : List (Setting W)) where
    -- With a success messenger and a client among the options, a handler is made: it has the
    -- processors and the messenger as given, the last client, and the last failure messenger, or
    -- the one that does nothing if there is none.
    pub new_handler-last :
        (success : Messenger W) (c : Storage)
        → last_client none ss ≡ some c
        → new_handler new_client ps (some success) (map to_option ss)
          ≡ ok (record {
            client = c;
            processors = ps;
            success_messenger = success;
            failure_messenger = or_noop (last_failure none ss);
          })
    unfolding new_handler
    new_handler-last success c found = rw (apply_options-map, found)

    -- Without a success messenger no handler is made.
    pub new_handler-no_success :
        new_handler new_client ps none (map to_option ss)
        ≡ err (plain (codes "successMessenger cannot be nil"))
    unfolding new_handler
    new_handler-no_success = rw apply_options-map
