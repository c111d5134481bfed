-- ===== src/Tests/Server.antt =====
-- Configurations, messages, sources and new handlers at concrete inputs.
use pmap.Base.{
  ℕ, ◌+◌, ◌≤◌, ◌<◌, ◌≡◌, ◌≢◌, ◌↔◌, ◌⊎◌, refl, Bool, Option, none, some, List, [], ◌∷◌, ◌++◌, map,
  Bytes, bytes_eq, nat_eq, codes, arith, ◌==◌, if◌then◌else◌, length, take, All,
}
use pmap.Base.Dict.{Dict, lookup}
use pmap.Errors.{Err, plain, wrapped, joined, cons, nil, is, process, Result, ok, err, panicked}
use pmap.Errors.Fallible.{value}
use pmap.Errors.Laws.{UserFacing, is_iff}
use pmap.Errors.Leaves.{leaves}
use pmap.Go.Strings.{split}
use pmap.Go.Strconv.{pos, parse_int}
use pmap.Server.Config.{
  MappingHandlerConfig, validate, validate_mapping, is_scope_kind, no_failure_topic, no_scope,
  bad_scope,
}
use pmap.Server.Config.Accepts.{HasKind, validate_mapping-none_iff}
use pmap.Server.PubSub.{
  Message, max_topic_data_bytes, max_topic_attr_value_bytes, limited_size_message,
}
use pmap.Server.PubSub.Limits.{cut_value, limited_size_message_iff}
use pmap.Server.Source.{
  NotificationPayload, file_path, parse_git_hub_source, gcs_path_separator_key,
}
use pmap.Server.Source.Fields.{parse_git_hub_source-panicked_iff}
use pmap.Go.Strings.Occurs.{Clear}
use pmap.Server.Source.FilePath.{file_path_iff}

abbrev nested : Err
nested =
    joined
      (cons (plain (codes "a")) (cons (wrapped (codes "b: ") (process (plain (codes "c")))) nil))

is_iff_example : (is nested ≡ pmap.Base.true) ↔ UserFacing nested
is_iff_example = is_iff nested

abbrev config : MappingHandlerConfig
config = record {
  default_resource_scope = codes "folders";
  handler_config = record {
    port = codes "8080";
    project_id = codes "p";
    success_topic_id = codes "s";
    failure_topic_id = [];
  };
}

two_faults :
    leaves (validate_mapping (record config { default_resource_scope = codes "teams/1" }))
    ≡ no_failure_topic ∷ bad_scope (codes "teams/1") ∷ []
unfolding leaves validate_mapping validate pmap.Server.Config.join_if pmap.Errors.join bytes_eq
    nat_eq split is_scope_kind pmap.Errors.message bad_scope
two_faults = refl

validate_mapping-none_iff_example :
    (validate_mapping config ≡ none)
    ↔ ((codes "p" ≢ []) × (codes "s" ≢ []) × (◌≢◌ {A = Bytes} [] []) × HasKind (codes "folders"))
validate_mapping-none_iff_example = validate_mapping-none_iff config

abbrev attr : Dict Bytes
attr = (codes "ProcessErr", codes "text") ∷ []

limited_size_message_iff_example : (1 ≤ max_topic_data_bytes) ↔ (
    (m : Message) × (limited_size_message (codes "d") attr ≡ value m)
    × (m.payload ≡ codes "d")
    × ((k : Bytes) → lookup k m.attributes ≡ cut_value (lookup k attr))
    × All (λ kv. length kv.1 ≤ max_topic_attr_value_bytes) m.attributes)
limited_size_message_iff_example = limited_size_message_iff (codes "d") attr

-- A decoder of notifications: `null` is nil, and all else has one key.
abbrev unmarshal : Bytes → Result (Option NotificationPayload)
unmarshal b =
    if b == codes "null"
    then ok none
    else ok (some (record { metadata = (codes "github-commit", b) ∷ (codes "other", b) ∷ [] }))

abbrev parse_time : Bytes → Result ℕ
parse_time t = ok (length t)

unmarshal-ne-panicked : unmarshal (codes "null") ≢ panicked
unfolding bytes_eq nat_eq
unmarshal-ne-panicked e = cc

parse_git_hub_source-panicked_iff_example :
    (parse_git_hub_source parse_time unmarshal (codes "null") [] ≡ panicked)
    ↔ (unmarshal (codes "null") ≡ ok none)
parse_git_hub_source-panicked_iff_example =
    parse_git_hub_source-panicked_iff unmarshal parse_time (codes "null") [] unmarshal-ne-panicked
      (λ t e. cc)

attempts :
    (parse_int (codes "9223372036854775808") ≡ none)
    × (parse_int (codes "9223372036854775807") ≡ some (pos 9223372036854775807))
    × (parse_int (codes "1x") ≡ none)
unfolding parse_int nat_eq
attempts = (refl, refl, refl)

abbrev object_id : Bytes
object_id = codes "mapping/gh-prefix/team/a.yaml"

path_of_object : file_path (some object_id) ≡ codes "team/a.yaml"
unfolding file_path split nat_eq
path_of_object = refl

file_path_iff_example :
    let object = codes "m" ++ (gcs_path_separator_key ++ codes "a") in
    (file_path (some object) ≡ codes "a") ↔ (
      (p : Bytes) × (object ≡ p ++ (gcs_path_separator_key ++ codes "a"))
      × Clear gcs_path_separator_key p (gcs_path_separator_key ++ codes "a")
      × Clear gcs_path_separator_key (codes "a") [])
file_path_iff_example =
    file_path_iff (codes "m" ++ (gcs_path_separator_key ++ codes "a")) (codes "a") (λ h. cc)
