-- ===== src/Server/Handler/Failures.antt =====
-- What becomes of each fault on the way from the notification to the event.
use pmap.Base.{◌≡◌, ◌↔◌, true, false, Option, none, some, [], ◌∷◌, ◌++◌, Bytes, codes, arith}
use pmap.Errors.{Err, wrapped, is, message, join, new, Result, ok, err, panicked}
use pmap.Server.Source.{GitHubSource}
use pmap.Server.Handler.{
  Codec, EventHandler, Notification, Returned, returned, panic, attr_key_process_err, event_of,
  get_gcs_object_bytes, run_processors, github_source, generate_pmap_event_bytes, handle,
  add_payload, add_source, marshal_event, fail_with,
}

-- A user facing error, or a panic.
abbrev pub KeepsFacing : Returned → Type 0
KeepsFacing panic = Unit
KeepsFacing (returned b none) = ⊥
KeepsFacing (returned b (some e)) = is e ≡ true

module _ {T Payload Time : Type 0} (codec : Codec T Payload Time) (e : Err)
    (facing : is e ≡ true) where
  fail_with-KeepsFacing : (text : Bytes) (d : Err) → KeepsFacing (fail_with codec (some e) text d)
  unfolding join is
  fail_with-KeepsFacing text d = ground arith

  marshal_event-KeepsFacing : (r : Result Bytes) → KeepsFacing (marshal_event codec (some e) r)
  marshal_event-KeepsFacing (ok b) = facing
  marshal_event-KeepsFacing (err d) = fail_with-KeepsFacing _ d
  marshal_event-KeepsFacing panicked = tt

  add_source-KeepsFacing :
      (payload : Payload) (r : Result (Option (GitHubSource Time)))
      → KeepsFacing (add_source codec (some e) payload r)
  add_source-KeepsFacing payload (ok gr) =
      marshal_event-KeepsFacing (codec.marshal (event_of codec payload gr))
  add_source-KeepsFacing payload (err d) = fail_with-KeepsFacing _ d
  add_source-KeepsFacing payload panicked = tt

  add_payload-KeepsFacing :
      (m : Notification) (r : Result Payload) → KeepsFacing (add_payload codec m (some e) r)
  add_payload-KeepsFacing m (ok payload) = add_source-KeepsFacing payload (github_source codec m)
  add_payload-KeepsFacing m (err d) = fail_with-KeepsFacing _ d
  add_payload-KeepsFacing m panicked = tt

module _ {T Payload Time W : Type 0} (codec : Codec T Payload Time) (h : EventHandler T W)
    (m : Notification) where
  -- Once a processor has failed with a user facing error, what is returned is user facing too,
  -- whatever fails behind it: packing, the metadata, or marshalling.
  pub generate-KeepsFacing :
      {b : Bytes} {p q : T} {e : Err}
      → get_gcs_object_bytes h.client m.attributes ≡ ok b
      → codec.from_yaml b ≡ ok p
      → run_processors h.processors p ≡ (some e, q)
      → is e ≡ true
      → KeepsFacing (generate_pmap_event_bytes codec h m)
  unfolding generate_pmap_event_bytes
  generate-KeepsFacing {q} {e} read decoded failed facing =
      rw (read, decoded, failed) (add_payload-KeepsFacing codec e facing m (codec.new_any q))

  -- For an object that is read but is no YAML of the type, the failure messenger is sent no data, and
  -- the text of the error as an attribute.
  pub handle-bad_yaml :
      (w : W) {b : Bytes} {e : Err}
      → get_gcs_object_bytes h.client m.attributes ≡ ok b
      → codec.from_yaml b ≡ err e
      → (handle codec h m w).1
        ≡ (h.failure_messenger.send []
            ((
              attr_key_process_err,
              codes "pmap process err: failed to unmarshal object yaml: " ++ message e,
            )
              ∷ [])
            w).1
  unfolding handle generate_pmap_event_bytes new is message
  handle-bad_yaml w read bad = rw (read, bad) (ground arith)

  -- An object that cannot be read, for a reason that is not user facing, is an error of the call, and
  -- nothing is sent.
  pub handle-unread :
      (w : W) {e : Err}
      → get_gcs_object_bytes h.client m.attributes ≡ err e
      → is e ≡ false
      → handle codec h m w ≡ (err (wrapped (codes "failed to get GCS object: ") e), w)
  unfolding handle generate_pmap_event_bytes is
  handle-unread w unread inner = rw unread (ground arith)

  -- With every step a success, the event of the processed message goes to the success messenger,
  -- with no attributes, and the call succeeds exactly if that messenger does.
  pub handle-whole :
      (w : W) {b event_bytes : Bytes} {p q : T} {payload : Payload}
      {gr : Option (GitHubSource Time)}
      → get_gcs_object_bytes h.client m.attributes ≡ ok b
      → codec.from_yaml b ≡ ok p
      → run_processors h.processors p ≡ (none, q)
      → codec.new_any q ≡ ok payload
      → github_source codec m ≡ ok gr
      → codec.marshal (event_of codec payload gr) ≡ ok event_bytes
      → let s = h.success_messenger.send event_bytes [] w in
        ((handle codec h m w).1 ≡ s.1) × (((handle codec h m w).0 ≡ ok tt) ↔ (s.0 ≡ none))
  unfolding handle generate_pmap_event_bytes
  handle-whole w read decoded ran packed sourced marshalled =
      rw (read, decoded, ran, packed, sourced, marshalled) (ground arith)

  -- If a processor fails with a user facing error and the rest succeeds, the event of the message
  -- as the processors left it goes to the failure messenger, with the text of the error.
  pub handle-failed_processor :
      (w : W) {b event_bytes : Bytes} {p q : T} {e : Err} {payload : Payload}
      {gr : Option (GitHubSource Time)}
      → get_gcs_object_bytes h.client m.attributes ≡ ok b
      → codec.from_yaml b ≡ ok p
      → run_processors h.processors p ≡ (some e, q)
      → is e ≡ true
      → codec.new_any q ≡ ok payload
      → github_source codec m ≡ ok gr
      → codec.marshal (event_of codec payload gr) ≡ ok event_bytes
      → let s = h.failure_messenger.send event_bytes ((attr_key_process_err, message e) ∷ []) w in
        ((handle codec h m w).1 ≡ s.1) × (((handle codec h m w).0 ≡ ok tt) ↔ (s.0 ≡ none))
  unfolding handle generate_pmap_event_bytes
  handle-failed_processor w read decoded failed facing packed sourced marshalled =
      rw (read, decoded, failed, packed, sourced, marshalled) (ground arith)
