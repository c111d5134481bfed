-- ===== src/Server/Options.antt =====
-- `NewHandler` of pkg/server/event_handler.go, and its options.
pub mod Defaults
use pmap.Base.{Option, none, some, List, [], ◌∷◌, Bytes, codes}
use pmap.Base.Dict.{Dict}
use pmap.Errors.{Err, plain, wrapped, Result, ok, err, panicked, ◌>>=◌, or_wrap}
use pmap.Server.PubSub.{Messenger}
use pmap.Server.Handler.{Storage, Processor, EventHandler}

module _ {W : Type 0} where
  -- `NoopMessenger`
  abbrev pub noop_messenger : Messenger W
  noop_messenger = record { send = λ content attr w. (none, w) }

-- `HandlerOpts`
pub record HandlerOpts (W : Type 0) : Type 0 where
  pub client : Option Storage
  pub failure_messenger : Option (Messenger W)

-- `Option`: it changes the options in place and returns nil or an error.
pub record HandlerOption (W : Type 0) : Type 0 where
  pub apply : HandlerOpts W → Option Err × HandlerOpts W

-- `new_client` is `storage.NewClient(ctx)`.
abbrev or_new_client : Result Storage → Option Storage → Result Storage
or_new_client new_client none =
    or_wrap new_client (codes "failed to create the GCS storage client: ")
or_new_client new_client (some c) = ok c

module _ {W : Type 0} where
  -- `WithStorageClient`
  unfoldable pub with_storage_client : Option Storage → HandlerOption W
  with_storage_client c = record { apply = λ opts. (none, record opts { client = c }) }

  -- `WithFailureMessenger`
  unfoldable pub with_failure_messenger : Option (Messenger W) → HandlerOption W
  with_failure_messenger msger = record {
    apply = λ opts. (none, record opts { failure_messenger = msger });
  }

  -- The loop over the options.
  unfoldable pub apply_options : List (HandlerOption W) → HandlerOpts W → Result (HandlerOpts W)
  apply_options [] opts = ok opts
  apply_options (o ∷ os) opts =
      let (failure, opts') = o.apply opts in
      elim failure [
        | none ↦ apply_options os opts'
        | some e ↦ err (wrapped (codes "failed to apply handler options: ") e)
      ]

  abbrev require : Option (Messenger W) → Result (Messenger W)
  require none = err (plain (codes "successMessenger cannot be nil"))
  require (some m) = ok m

  abbrev pub or_noop : Option (Messenger W) → Messenger W
  or_noop none = noop_messenger
  or_noop (some m) = m

  -- `NewHandler`
  module _ {T : Type 0} (new_client : Result Storage) where
    unfoldable pub new_handler :
        List (Processor T)
        → Option (Messenger W)
        → List (HandlerOption W)
        → Result (EventHandler T W)
    unfolding apply_options
    new_handler ps success opts = do
      o ← apply_options opts (record { client = none; failure_messenger = none })
      success_messenger ← require success
      client ← or_new_client new_client o.client
      ok (record {
        client = client;
        processors = ps;
        success_messenger = success_messenger;
        failure_messenger = or_noop o.failure_messenger;
      })
