-- ===== src/Prober.antt =====
-- What prober/main.go uploads with its files, and the source it wants to see in the event.
pub mod Source
pub mod Config
pub mod Probe
pub mod Main
use pmap.Base.{none, [], ◌∷◌, Bytes, codes}
use pmap.Base.Dict.{Dict}
use pmap.Go.Strconv.{pos}
use pmap.Server.Source.{
  GitHubSource, metadata_key_git_hub_commit, metadata_key_git_hub_repo, metadata_key_workflow,
  metadata_key_workflow_sha, metadata_key_workflow_run_id, metadata_key_workflow_run_attempt,
}

abbrev pub prober_github_commit_value : Bytes
prober_github_commit_value = codes "prober-test-github-commit"

abbrev pub prober_github_repo_value : Bytes
prober_github_repo_value = codes "prober-test-github-repo"

abbrev pub prober_workflow_value : Bytes
prober_workflow_value = codes "prober-test-workflow"

abbrev pub prober_workflow_sha_value : Bytes
prober_workflow_sha_value = codes "prober-test-workflow-sha"

abbrev pub prober_workflow_run_id : Bytes
prober_workflow_run_id = codes "prober-test-workflow-id"

abbrev pub prober_workflow_run_attempt : Bytes
prober_workflow_run_attempt = codes "1"

-- `getProberGCSMetadata`
unfoldable pub get_prober_gcs_metadata : Dict Bytes
get_prober_gcs_metadata =
    (metadata_key_git_hub_commit, prober_github_commit_value)
    ∷ (metadata_key_git_hub_repo, prober_github_repo_value)
    ∷ (metadata_key_workflow, prober_workflow_value)
    ∷ (metadata_key_workflow_sha, prober_workflow_sha_value)
    ∷ (metadata_key_workflow_run_attempt, prober_workflow_run_attempt)
    ∷ (metadata_key_workflow_run_id, prober_workflow_run_id)
    ∷ []

-- `wantGithubSource`
unfoldable pub want_github_source : {Time : Type 0} → GitHubSource Time
want_github_source = record {
  repo_name = prober_github_repo_value;
  file_path = [];
  commit = prober_github_commit_value;
  workflow = prober_workflow_value;
  workflow_sha = prober_workflow_sha_value;
  workflow_triggered_timestamp = none;
  workflow_run_id = prober_workflow_run_id;
  workflow_run_attempt = pos 1;
}
