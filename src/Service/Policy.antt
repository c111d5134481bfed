-- ===== src/Service/Policy.antt =====
-- The policy service: what the handler that `PolicyServerCommand.RunUnstarted` of
-- pkg/cli/policy_server.go returns does with an object.
use mathlib.Core.Path.{subst}
use pmap.Base.{◌≡◌, ◌↔◌, refl, sym, ◌∙◌, ap, Option, none, some, List, [], Bytes}
use pmap.Errors.{Err, Result, ok, err, panicked, new, is, message}
use pmap.Server.Config.{HandlerConfig, validate}
use pmap.Server.PubSub.{Messenger, new_pub_sub_messenger}
use pmap.Server.Source.{GitHubSource}
use pmap.Server.Handler.{
  Codec, EventHandler, Notification, Storage, event_of, get_gcs_object_bytes, github_source, handle,
  generate_pmap_event_bytes, run_processors,
}
use pmap.Server.Handler.Failures.{handle-whole}
use pmap.Server.Options.{noop_messenger, new_handler}
use pmap.Cli.Start.{Closers, State, lift, ◌>>=◌, acquire, stop_later, open_handle}
use pmap.Cli.Server.{Cloud, policy_run_unstarted}
use pmap.Cli.Server.Ready.{
  ok-inj, or_wrap-eq-ok, bind-eq-ok, acquire-result, open_handle-result, checked-eq-ok,
}

new_handler-bare :
    {T W : Type 0} (new_client : Result Storage) (success : Messenger W) {h : EventHandler T W}
    → new_handler new_client [] (some success) [] ≡ ok h
    → (store : Storage) × (new_client ≡ ok store)
      × (h ≡ record {
        client = store;
        processors = [];
        success_messenger = success;
        failure_messenger = noop_messenger;
      })
unfolding new_handler
new_handler-bare (ok store) success e = (store, refl, sym (ok-inj e))
new_handler-bare (err x) success e = absurd (cc)
new_handler-bare panicked success e = absurd (cc)

module _ {C Client Srv W T : Type 0} (closers : Closers C) (quote_list : List Bytes → Bytes)
    (cloud : Cloud Client Srv W) (parsed : Result (HandlerConfig × List Bytes)) (s : State C) where
  -- A handler without processors, which sends successes to the configured topic and failures
  -- nowhere.
  abbrev pub policy_handler : HandlerConfig → Client → Storage → EventHandler T W
  policy_handler cfg client store = record {
    client = store;
    processors = [];
    success_messenger = new_pub_sub_messenger (cloud.topic_of client cfg.success_topic_id);
    failure_messenger = noop_messenger;
  }

  -- The flags leave no arguments, the configuration is valid, and both clients and the server are
  -- made.
  abbrev pub Ready : Srv → EventHandler T W → Type 0
  Ready srv h =
      (cfg : HandlerConfig) × (client : Client) × (store : Storage) × (parsed ≡ ok (cfg, []))
      × (validate cfg ≡ none)
      × (cloud.new_pubsub_client cfg.project_id ≡ ok client)
      × (cloud.new_storage_client ≡ ok store)
      × (cloud.new_server cfg.port ≡ ok srv)
      × (h ≡ policy_handler cfg client store)

  policy_run_unstarted-Ready :
      {srv : Srv} {h : EventHandler T W}
      → (policy_run_unstarted closers quote_list cloud parsed s).0 ≡ ok (srv, h)
      → Ready srv h
  unfolding policy_run_unstarted lift
  policy_run_unstarted-Ready {srv} {h} e =
      let (cfg, e1, h1) = bind-eq-ok _ _ s e in
      let (client, e2, h2) = bind-eq-ok _ _ _ h1 in
      let (_, _, h3) = bind-eq-ok _ _ _ h2 in
      let (h', e4, h4) = bind-eq-ok _ _ _ h3 in
      let (srv', e5, h5) = bind-eq-ok _ _ _ h4 in
      let made = or_wrap-eq-ok _ _ (sym (open_handle-result _ _ _) ∙ e4) in
      let (store, opened, whole) = new_handler-bare _ _ made in
      let (good, fine) = checked-eq-ok closers quote_list cloud validate parsed s _ e1 in
      (
        cfg,
        client,
        store,
        good,
        fine,
        or_wrap-eq-ok _ _ (sym (acquire-result _ _ _ _) ∙ e2),
        opened,
        or_wrap-eq-ok _ _ e5 ∙ ap (λ x. ok x.0) (ok-inj h5),
        sym (ap (λ x. x.1) (ok-inj h5)) ∙ whole,
      )

  policy_run_unstarted_of_Ready :
      {srv : Srv} {h : EventHandler T W}
      → Ready srv h
      → (policy_run_unstarted closers quote_list cloud parsed s).0 ≡ ok (srv, h)
  unfolding policy_run_unstarted lift ◌>>=◌ acquire stop_later open_handle new_handler
  policy_run_unstarted_of_Ready (cfg, client, store, good, fine, made, opened, served, same) =
      rw (good, fine, made, opened, served, same)

  -- The policy server starts exactly if the flags leave no arguments, the configuration is valid,
  -- and the Pub/Sub and storage clients and the server are made; and then its handler has no
  -- processors, and sends successes to the configured topic and failures nowhere.
  pub policy_run_unstarted-ok_iff :
      (srv : Srv) (h : EventHandler T W)
      → ((policy_run_unstarted closers quote_list cloud parsed s).0 ≡ ok (srv, h)) ↔ Ready srv h
  policy_run_unstarted-ok_iff srv h = (policy_run_unstarted-Ready, policy_run_unstarted_of_Ready)

  module _ {Payload Time : Type 0} (codec : Codec T Payload Time) (m : Notification) where
    -- The event goes to the messenger, with no attributes, and the call succeeds exactly if it does.
    abbrev pub Acknowledged : EventHandler T W → W → Bytes → Messenger W → Type 0
    Acknowledged h w event_bytes messenger =
        let sent = messenger.send event_bytes [] w in
        ((handle codec h m w).1 ≡ sent.1) × (((handle codec h m w).0 ≡ ok tt) ↔ (sent.0 ≡ none))

    -- When the policy server has started, an object that its storage client reads but that is no
    -- YAML of the type is acknowledged, and nothing is sent for it, whether or not the configuration
    -- names a failure topic.
    pub handle-policy_bad_yaml :
        {srv : Srv} {h : EventHandler T W} (w : W) {b : Bytes} {e : Err}
        → (policy_run_unstarted closers quote_list cloud parsed s).0 ≡ ok (srv, h)
        → get_gcs_object_bytes h.client m.attributes ≡ ok b
        → codec.from_yaml b ≡ err e
        → handle codec h m w ≡ (ok tt, w)
    unfolding handle generate_pmap_event_bytes new is message
    handle-policy_bad_yaml {h = h} w started read bad =
        let (_, _, _, _, _, _, _, _, same) = policy_run_unstarted-Ready started in
        let quiet : h.failure_messenger ≡ noop_messenger = ap (λ k. k.failure_messenger) same in
        rw (read, bad, quiet) refl

    -- When the policy server has started, an object that is read and decoded is passed on as it is:
    -- if the encoders succeed, its event goes to the success topic of the configuration, with no
    -- attributes, and the call succeeds exactly if that topic takes it.
    pub handle-policy :
        {srv : Srv} {h : EventHandler T W} (w : W) {b event_bytes : Bytes} {p : T}
        {payload : Payload} {gr : Option (GitHubSource Time)}
        → (policy_run_unstarted closers quote_list cloud parsed s).0 ≡ ok (srv, h)
        → get_gcs_object_bytes h.client m.attributes ≡ ok b
        → codec.from_yaml b ≡ ok p
        → codec.new_any p ≡ ok payload
        → github_source codec m ≡ ok gr
        → codec.marshal (event_of codec payload gr) ≡ ok event_bytes
        → (cfg : HandlerConfig) × (client : Client) × (parsed ≡ ok (cfg, []))
          × (cloud.new_pubsub_client cfg.project_id ≡ ok client)
          × Acknowledged h w event_bytes
              (new_pub_sub_messenger (cloud.topic_of client cfg.success_topic_id))
    unfolding run_processors
    handle-policy {h = h} w {event_bytes = event_bytes} {p = p} started read decoded packed sourced
          marshalled =
        let (cfg, client, store, good, _, made, _, _, same) = policy_run_unstarted-Ready started in
        let empty : run_processors h.processors p ≡ (none, p) =
          ap (λ k. run_processors k.processors p) same in
        let topic_messenger = ap (λ k. k.success_messenger) same in
        (
          cfg,
          client,
          good,
          made,
          subst (λ k. Acknowledged h w event_bytes k) topic_messenger
              (handle-whole codec h m w read decoded empty packed sourced marshalled),
        )
