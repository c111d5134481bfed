-- ===== src/Tests/Prober.antt =====
-- The prober's metadata through the handler's parser.
use pmap.Base.{ℕ, ◌≡◌, refl, Option, some, [], ◌∷◌, Bytes, bytes_eq, nat_eq, codes, length}
use pmap.Base.Dict.{Dict, lookup}
use pmap.Errors.{Result, ok}
use pmap.Go.Strings.{split}
use pmap.Server.Source.{NotificationPayload, file_path, parse_git_hub_source}
use pmap.Prober.{get_prober_gcs_metadata, want_github_source}
use pmap.Prober.Source.{parse_git_hub_source-prober}

abbrev parse_time : Bytes → Result ℕ
parse_time t = ok (length t)

abbrev uploaded : NotificationPayload
uploaded = record { metadata = get_prober_gcs_metadata }

abbrev unmarshal : Bytes → Result (Option NotificationPayload)
unmarshal b = ok (some uploaded)

abbrev object_attrs : Dict Bytes
object_attrs = (codes "objectId", codes "mapping/prober-file-17") ∷ []

prober_source_run :
    parse_git_hub_source parse_time unmarshal (codes "{}") object_attrs ≡ ok want_github_source
unfolding lookup bytes_eq nat_eq file_path split
prober_source_run =
    parse_git_hub_source-prober parse_time unmarshal (codes "{}") (codes "mapping/prober-file-17")
      object_attrs {pm = uploaded} refl (refl, (refl, (refl, (refl, (refl, (refl, (refl, tt)))))))
      refl refl
