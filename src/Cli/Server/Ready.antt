-- ===== src/Cli/Server/Ready.antt =====
-- When the mapping server starts, and what it serves.
use pmap.Base.{◌≡◌, ◌↔◌, refl, sym, ◌∙◌, ap, Option, none, some, List, [], ◌∷◌, Bytes}
use pmap.Base.Dict.{Dict}
use pmap.Errors.{Err, Result, ok, err, panicked, or_wrap}
use pmap.Errors.Fallible.{Fallible}
use pmap.Api.{ResourceMapping, Structs}
use pmap.Server.Config.{MappingHandlerConfig, validate_mapping}
use pmap.Server.PubSub.{Messenger, new_pub_sub_messenger}
use pmap.Server.Handler.{Storage, Processor, EventHandler}
use pmap.Server.Options.{with_failure_messenger, new_handler}
use pmap.Mapping.Inventory.{AnnoValue, AssetClient, AssetInventoryProcessor}
use pmap.Mapping.Inventory.Create.{new_asset_inventory_processor}
use pmap.Cli.Start.{
  Handle, Closers, State, Start, ◌>>=◌, lift, open_handle, acquire, stop_later, proceed,
}
use pmap.Cli.Server.{Cloud, no_args, valid, checked, as_processor, mapping_run_unstarted}

pub ok-inj : {A : Type 0} {a b : A} → ◌≡◌ {A = Result A} (ok a) (ok b) → a ≡ b
ok-inj h = cc

pub or_wrap-eq-ok :
    {A : Type 0} (r : Result A) (text : Bytes) {a : A} → or_wrap r text ≡ ok a → r ≡ ok a
or_wrap-eq-ok (ok b) text h = h
or_wrap-eq-ok (err e) text h = absurd (cc)
or_wrap-eq-ok panicked text h = absurd (cc)

module _ {C : Type 0} where
  -- The two parts of a start that succeeds.
  pub bind-eq-ok :
      {A B : Type 0} (m : Start C A) (f : A → Start C B) (s : State C) {b : B}
      → ((m >>= f) s).0 ≡ ok b
      → (a : A) × ((m s).0 ≡ ok a) × ((f a (m s).1).0 ≡ ok b)
  unfolding ◌>>=◌
  bind-eq-ok {A = A} {B = B} m f s {b} h = go (m s).0 (m s).1 h
    where
      go :
          (r : Result A) (t : State C)
          → (proceed f (r, t)).0 ≡ ok b
          → (a : A) × (r ≡ ok a) × ((f a t).0 ≡ ok b)
      go (ok a) t h = (a, refl, h)
      go (err e) t h = absurd (cc)
      go panicked t h = absurd (cc)

  pub acquire-result :
      {A : Type 0} (closers : Closers C) (h : Handle) (r : Result A) (s : State C)
      → (acquire closers h r s).0 ≡ r
  unfolding acquire
  acquire-result closers h (ok a) s = refl
  acquire-result closers h (err e) s = refl
  acquire-result closers h panicked s = refl

  pub open_handle-result :
      {A : Type 0} (h : Handle) (r : Result A) (s : State C) → (open_handle h r s).0 ≡ r
  unfolding open_handle
  open_handle-result h (ok a) s = refl
  open_handle-result h (err e) s = refl
  open_handle-result h panicked s = refl

no_args-eq-ok :
    {A : Type 0} (quote_list : List Bytes → Bytes) (p : A × List Bytes) {cfg : A}
    → no_args quote_list p ≡ ok cfg
    → p ≡ (cfg, [])
no_args-eq-ok quote_list (c, []) h = ap (λ x. (x, [])) (ok-inj h)
no_args-eq-ok quote_list (c, a ∷ args) h = absurd (cc)

valid-eq-ok :
    {A : Type 0} (text : Bytes) (c : A) (e : Option Err) {cfg : A}
    → valid text c e ≡ ok cfg
    → (e ≡ none) × (c ≡ cfg)
valid-eq-ok text c none h = (refl, ok-inj h)
valid-eq-ok text c (some e) h = absurd (cc)

new_handler-eq-ok :
    {T W : Type 0} (new_client : Result Storage) (ps : List (Processor T))
    (success failure : Messenger W) {h : EventHandler T W}
    → new_handler new_client ps (some success) (with_failure_messenger (some failure) ∷ []) ≡ ok h
    → (store : Storage) × (new_client ≡ ok store)
      × (h ≡ record {
        client = store;
        processors = ps;
        success_messenger = success;
        failure_messenger = failure;
      })
unfolding new_handler with_failure_messenger
new_handler-eq-ok (ok store) ps success failure e = (store, refl, sym (ok-inj e))
new_handler-eq-ok (err x) ps success failure e = absurd (cc)
new_handler-eq-ok panicked ps success failure e = absurd (cc)

module _ {C Client Srv W Cfg : Type 0} (closers : Closers C) (quote_list : List Bytes → Bytes)
    (cloud : Cloud Client Srv W) (check : Cfg → Option Err) (parsed : Result (Cfg × List Bytes))
    (s : State C) where
  pub checked-eq-ok :
      {cfg : Cfg} (text : Bytes)
      → (checked closers quote_list cloud text check parsed s).0 ≡ ok cfg
      → (parsed ≡ ok (cfg, [])) × (check cfg ≡ none)
  unfolding lift
  checked-eq-ok text h =
      let (p, e1, h1) = bind-eq-ok _ _ s h in
      let (c, e2, h2) = bind-eq-ok _ _ _ h1 in
      let (good, same) = valid-eq-ok text c (check c) h2 in
      let pair = no_args-eq-ok quote_list p e2 in
      (
        or_wrap-eq-ok parsed _ e1 ∙ ap ok pair ∙ ap (λ x. ok (x, [])) same,
        ap check (sym same) ∙ good,
      )

module _ {C Client Srv W Time Policy S Value : Type 0} (closers : Closers C)
    (quote_list : List Bytes → Bytes) (cloud : Cloud Client Srv W) (structs : Structs S Value)
    (quote : Bytes → Bytes) (to_proto_struct : Dict (Dict (AnnoValue Time Policy)) → Fallible S)
    (new_asset_client : Result (AssetClient Time Policy))
    (parsed : Result (MappingHandlerConfig × List Bytes)) (s : State C) where
  abbrev start : Result (Srv × EventHandler (ResourceMapping S) W) × State C
  start =
      mapping_run_unstarted closers quote_list cloud structs quote to_proto_struct new_asset_client
        parsed s

  -- The handler of the mapping service: one processor, over the asset client and the configured
  -- scope, and the two topics of the configuration.
  abbrev pub mapping_handler :
      MappingHandlerConfig
      → Client
      → AssetInventoryProcessor Time Policy
      → Storage
      → EventHandler (ResourceMapping S) W
  mapping_handler cfg client p store = record {
    client = store;
    processors =
        as_processor closers quote_list cloud structs quote to_proto_struct new_asset_client p ∷ [];
    success_messenger =
        new_pub_sub_messenger (cloud.topic_of client cfg.handler_config.success_topic_id);
    failure_messenger =
        new_pub_sub_messenger (cloud.topic_of client cfg.handler_config.failure_topic_id);
  }

  abbrev pub mapping_processor :
      MappingHandlerConfig → AssetClient Time Policy → AssetInventoryProcessor Time Policy
  mapping_processor cfg assets = record {
    default_resource_scope = cfg.default_resource_scope;
    client = assets;
  }

  -- The flags leave no arguments, the configuration is valid, and every client, and the server, is
  -- made.
  abbrev pub Ready : Srv → EventHandler (ResourceMapping S) W → Type 0
  Ready srv h =
      (cfg : MappingHandlerConfig) × (client : Client) × (assets : AssetClient Time Policy)
      × (store : Storage) × (parsed ≡ ok (cfg, []))
      × (validate_mapping cfg ≡ none)
      × (cloud.new_pubsub_client cfg.handler_config.project_id ≡ ok client)
      × (new_asset_client ≡ ok assets)
      × (cloud.new_storage_client ≡ ok store)
      × (cloud.new_server cfg.handler_config.port ≡ ok srv)
      × (h ≡ mapping_handler cfg client (mapping_processor cfg assets) store)

  start-Ready :
      {srv : Srv} {h : EventHandler (ResourceMapping S) W} → start.0 ≡ ok (srv, h) → Ready srv h
  unfolding mapping_run_unstarted lift new_asset_inventory_processor
  start-Ready {srv} {h} e =
      let (cfg, e1, h1) = bind-eq-ok _ _ s e in
      let (client, e2, h2) = bind-eq-ok _ _ _ h1 in
      let (_, _, h3) = bind-eq-ok _ _ _ h2 in
      let (assets, e4, h4) = bind-eq-ok _ _ _ h3 in
      let (p, e5, h5) = bind-eq-ok _ _ _ h4 in
      let (h', e6, h6) = bind-eq-ok _ _ _ h5 in
      let (srv', e7, h7) = bind-eq-ok _ _ _ h6 in
      let (good, fine) = checked-eq-ok closers quote_list cloud validate_mapping parsed s _ e1 in
      let made = or_wrap-eq-ok _ _ (sym (open_handle-result _ _ _) ∙ e6) in
      let (store, opened, whole) = new_handler-eq-ok _ _ _ _ made in
      let pair = ok-inj h7 in
      (
        cfg,
        client,
        assets,
        store,
        good,
        fine,
        or_wrap-eq-ok _ _ (sym (acquire-result _ _ _ _) ∙ e2),
        or_wrap-eq-ok _ _ (sym (acquire-result _ _ _ _) ∙ e4),
        opened,
        or_wrap-eq-ok _ _ e7 ∙ ap (λ x. ok x.0) pair,
        sym (ap (λ x. x.1) pair)
            ∙ whole
            ∙ ap (λ q. mapping_handler cfg client q store) (sym (ok-inj e5)),
      )

  start_of_Ready :
      {srv : Srv} {h : EventHandler (ResourceMapping S) W} → Ready srv h → start.0 ≡ ok (srv, h)
  unfolding mapping_run_unstarted lift ◌>>=◌ acquire stop_later open_handle new_handler
      with_failure_messenger new_asset_inventory_processor
  start_of_Ready {srv} {h}
        (cfg, client, assets, store, good, fine, made, listed, opened, served, same) =
      rw (good, fine, made, listed, opened, served, same)

  -- The mapping server starts exactly if the flags leave no arguments, the configuration is valid,
  -- and the Pub/Sub, asset and storage clients and the server are made; and then its handler has the
  -- asset inventory processor over the configured scope as its one processor, and sends successes
  -- and failures to the two configured topics.
  pub mapping_run_unstarted-ok_iff :
      (srv : Srv) (h : EventHandler (ResourceMapping S) W) → (start.0 ≡ ok (srv, h)) ↔ Ready srv h
  mapping_run_unstarted-ok_iff srv h = (start-Ready, start_of_Ready)
