-- ===== src/Prober/Source.antt =====
-- The handler makes the source that the prober wants out of the metadata that the prober uploads.
use pmap.Base.{◌≡◌, refl, Option, some, [], Bytes, bytes_eq, nat_eq, codes}
use pmap.Base.Dict.{Dict, lookup}
use pmap.Errors.{Result, ok}
use pmap.Go.Strconv.{parse_int}
use pmap.Server.Source.{NotificationPayload, file_path, run_attempt, parse_git_hub_source}
use pmap.Server.Source.Fields.{read_keys, AgreeOn}
use pmap.Prober.{get_prober_gcs_metadata, want_github_source}

module _ {Time : Type 0} (parse_time : Bytes → Result Time)
    (unmarshal : Bytes → Result (Option NotificationPayload)) where
  -- A notification whose metadata has, at the keys that are read, what the prober uploads, and whose
  -- object's name has no file path behind a separator, gives the source that the prober wants.
  pub parse_git_hub_source-prober :
      (content object_id : Bytes) (obj_attrs : Dict Bytes) {pm : NotificationPayload}
      → unmarshal content ≡ ok (some pm)
      → AgreeOn read_keys pm.metadata get_prober_gcs_metadata
      → lookup (codes "objectId") obj_attrs ≡ some object_id
      → file_path (some object_id) ≡ []
      → parse_git_hub_source parse_time unmarshal content obj_attrs ≡ ok want_github_source
  unfolding parse_git_hub_source get_prober_gcs_metadata want_github_source lookup bytes_eq nat_eq
      run_attempt parse_int
  parse_git_hub_source-prober content object_id obj_attrs read (c, (r, (f, (s, (t, (i, (a, _)))))))
        name path =
      rw (read, name, path, c, r, f, s, t, i, a) refl
