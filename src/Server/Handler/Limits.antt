-- ===== src/Server/Handler/Limits.antt =====
-- Objects above the size limit of pkg/server/event_handler.go.
use pmap.Base.{◌≤◌, ◌≡◌, refl, sym, ◌∙◌, ap, none, some, Bytes, codes, arith, length, take}
use pmap.Base.Dict.{lookup}
use pmap.Errors.{ok}
use pmap.Go.Io.{Reader, read_all_limited}
use pmap.Server.Handler.{
  Codec, EventHandler, Notification, Storage, Returned, returned, panic, attribute, decode_object,
  gcs_object_size_limit_in_bytes, generate_pmap_event_bytes, get_gcs_object_bytes, handle,
  send_event,
}

-- The reader delivers the bytes `b` and reaches the limit with them; more bytes, or an error, may
-- follow.
abbrev pub Reaches : Bytes → Reader → Type 0
Reaches b r =
    (gcs_object_size_limit_in_bytes ≤ length r.content)
    × (take gcs_object_size_limit_in_bytes r.content ≡ b)

read-Reaches :
    {b : Bytes} (r : Reader)
    → Reaches b r
    → read_all_limited gcs_object_size_limit_in_bytes r ≡ ok b
unfolding read_all_limited
read-Reaches r (long, cut) = ground arith

attribute-some :
    (key text : Bytes) (m : Notification) {v : Bytes}
    → lookup key m.attributes ≡ some v
    → attribute key text m.attributes ≡ ok v
attribute-some key text m h = ground arith

module _ {T Payload Time W : Type 0} (codec : Codec T Payload Time) (h : EventHandler T W)
    (other : Storage) (m : Notification) where
  -- The same handler over another storage client.
  abbrev pub over_other : EventHandler T W
  over_other = record h { client = other }

  send_event-over_other :
      (r : Returned) (w : W) → send_event codec over_other r w ≡ send_event codec h r w
  unfolding send_event
  send_event-over_other (returned b none) w = refl
  send_event-over_other (returned b (some e)) w = refl
  send_event-over_other panic w = refl

  get_gcs_object_bytes-Reaches :
      (client : Storage) {bucket object b : Bytes} {r : Reader}
      → lookup (codes "bucketId") m.attributes ≡ some bucket
      → lookup (codes "objectId") m.attributes ≡ some object
      → client.new_reader bucket object ≡ ok r
      → Reaches b r
      → get_gcs_object_bytes client m.attributes ≡ ok b
  unfolding get_gcs_object_bytes
  get_gcs_object_bytes-Reaches client {r = r} in_bucket named opened reaches =
      let first = attribute-some (codes "bucketId") (codes "bucket ID not found") m in_bucket in
      let second = attribute-some (codes "objectId") (codes "object ID not found") m named in
      rw (first, second, opened, read-Reaches r reaches) refl

  -- Of an object of 25,000,000 bytes or more, only the first 25,000,000 matter: with another storage
  -- client, under which the object has the same first bytes, whatever follows them, more bytes or an
  -- error of the reader, `Handle` does and returns the same.
  pub handle-cut :
      (w : W) {bucket object b : Bytes} {r r' : Reader}
      → lookup (codes "bucketId") m.attributes ≡ some bucket
      → lookup (codes "objectId") m.attributes ≡ some object
      → h.client.new_reader bucket object ≡ ok r
      → other.new_reader bucket object ≡ ok r'
      → Reaches b r
      → Reaches b r'
      → handle codec over_other m w ≡ handle codec h m w
  unfolding handle generate_pmap_event_bytes
  handle-cut w in_bucket named opened opened' reaches reaches' =
      let read = get_gcs_object_bytes-Reaches h.client in_bucket named opened reaches in
      let read' = get_gcs_object_bytes-Reaches other in_bucket named opened' reaches' in
      ap (λ x. send_event codec over_other (decode_object codec h.processors m x) w)
        (read' ∙ sym read)
      ∙ send_event-over_other _ w
