-- ===== src/Server/Source.antt =====
-- `parseGitHubSource` of pkg/server/event_handler.go, and the message `GitHubSource` of apis/v1alpha1.
pub mod Fields
pub mod FilePath
use pmap.Base.{ℕ, Option, none, some, List, [], ◌∷◌, ◌++◌, Bytes, codes}
use pmap.Base.Dict.{Dict, lookup}
use pmap.Errors.{Result, ok, err, panicked, ◌>>=◌, or_wrap}
use pmap.Go.Strings.{split}
use pmap.Go.Strconv.{ℤ, pos, parse_int}

-- `GitHubSource`, over the type of timestamps.
pub record GitHubSource (Time : Type 0) : Type 0 where
  pub repo_name : Bytes
  pub file_path : Bytes
  pub commit : Bytes
  pub workflow : Bytes
  pub workflow_sha : Bytes
  pub workflow_triggered_timestamp : Option Time
  pub workflow_run_id : Bytes
  pub workflow_run_attempt : ℤ

abbrev pub metadata_key_git_hub_commit : Bytes
metadata_key_git_hub_commit = codes "github-commit"

abbrev pub metadata_key_git_hub_repo : Bytes
metadata_key_git_hub_repo = codes "github-repo"

abbrev pub metadata_key_workflow : Bytes
metadata_key_workflow = codes "github-workflow"

abbrev pub metadata_key_workflow_sha : Bytes
metadata_key_workflow_sha = codes "github-workflow-sha"

abbrev pub metadata_key_workflow_triggered_timestamp : Bytes
metadata_key_workflow_triggered_timestamp = codes "github-workflow-triggered-timestamp"

abbrev pub metadata_key_workflow_run_id : Bytes
metadata_key_workflow_run_id = codes "github-run-id"

abbrev pub metadata_key_workflow_run_attempt : Bytes
metadata_key_workflow_run_attempt = codes "github-run-attempt"

abbrev pub gcs_path_separator_key : Bytes
gcs_path_separator_key = codes "/gh-prefix/"

-- `if found { r.f = v }`, where the field is "" before.
abbrev pub text_or_empty : Option Bytes → Bytes
text_or_empty none = []
text_or_empty (some v) = v

-- `if value, err := strconv.ParseInt(ra, 10, 64); err == nil { … }`
abbrev pub number_or_zero : Option ℤ → ℤ
number_or_zero none = pos 0
number_or_zero (some z) = z

unfoldable pub run_attempt : Option Bytes → ℤ
run_attempt none = pos 0
run_attempt (some ra) = number_or_zero (parse_int ra)

-- `if len(parts) == 2 { r.FilePath = parts[1] }`
abbrev pub second_of_two : List Bytes → Bytes
second_of_two (p ∷ q ∷ []) = q
second_of_two _ = []

unfoldable pub file_path : Option Bytes → Bytes
file_path none = []
file_path (some object_id) = second_of_two (split object_id gcs_path_separator_key)

-- `notificationPayload`
pub record NotificationPayload : Type 0 where
  pub metadata : Dict Bytes

-- The decoder of notifications gives nil for the JSON text `null`. A field of nil panics.
abbrev metadata_of : Option NotificationPayload → Result (Dict Bytes)
metadata_of none = panicked
metadata_of (some pm) = ok pm.metadata

module _ {Time : Type 0} where
  -- The fields that are set from the metadata and the object's name.
  unfoldable pub untimed_source : Dict Bytes → Dict Bytes → GitHubSource Time
  unfolding run_attempt file_path
  untimed_source metadata obj_attrs = record {
    repo_name = text_or_empty (lookup metadata_key_git_hub_repo metadata);
    file_path = file_path (lookup (codes "objectId") obj_attrs);
    commit = text_or_empty (lookup metadata_key_git_hub_commit metadata);
    workflow = text_or_empty (lookup metadata_key_workflow metadata);
    workflow_sha = text_or_empty (lookup metadata_key_workflow_sha metadata);
    workflow_triggered_timestamp = none;
    workflow_run_id = text_or_empty (lookup metadata_key_workflow_run_id metadata);
    workflow_run_attempt = run_attempt (lookup metadata_key_workflow_run_attempt metadata);
  }

  module _ (parse_time : Bytes → Result Time) where
    unfoldable pub set_timestamp : Option Bytes → GitHubSource Time → Result (GitHubSource Time)
    set_timestamp none r = ok r
    set_timestamp (some t) r = do
      date ← or_wrap (parse_time t) (codes "failed to parse date ")
      ok (record r { workflow_triggered_timestamp = some date })

    -- The function behind its call of `json.Unmarshal`.
    abbrev parse_payload :
        Dict Bytes → Result (Option NotificationPayload) → Result (GitHubSource Time)
    parse_payload obj_attrs unmarshalled = do
      pm ← or_wrap unmarshalled (codes "failed to unmarshal payloadMetadata ")
      metadata ← metadata_of pm
      set_timestamp (lookup metadata_key_workflow_triggered_timestamp metadata)
          (untimed_source metadata obj_attrs)

    -- `parseGitHubSource`
    unfoldable pub parse_git_hub_source :
        (Bytes → Result (Option NotificationPayload))
        → Bytes
        → Dict Bytes
        → Result (GitHubSource Time)
    unfolding untimed_source set_timestamp
    parse_git_hub_source unmarshal content obj_attrs = parse_payload obj_attrs (unmarshal content)
