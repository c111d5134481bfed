-- ===== src/Prober/Probe/Passes.antt =====
-- When `probeMapping` and `probePolicy` of prober/main.go return nil.
use pmap.Base.{◌≡◌, ◌↔◌, none, Bytes, bytes_eq}
use pmap.Errors.{ok}
use pmap.Errors.Fallible.{Fallible}
use pmap.Api.Messages.{Structs}
use pmap.Testhelper.{BigQuery, Retry, Upload, upload_gcs_file}
use pmap.Testhelper.Retries.{RetryLaws}
use pmap.Prober.{get_prober_gcs_metadata}
use pmap.Prober.Config.{
  Config, Values, mapping_trace, policy_trace, mapping_data, policy_data, mapping_query,
  policy_query, mapping_path, policy_path, no_mapping_upload, no_policy_upload, no_entry, no_event,
  no_mapping, no_payload,
}
use pmap.Prober.Probe.{
  get_first_matched_bq_entry, mapping_diff, policy_diff, probe_mapping, probe_policy,
}
use pmap.Prober.Probe.Entry.{FoundText, get_first_matched_bq_entry-ok_iff}
use pmap.Prober.Probe.Chain.{Passed, chain-ok_iff}
use pmap.Prober.Probe.Diffs.{
  DiffLaws, MappingWanted, PolicyWanted, policy_diff-none_iff, mapping_diff-none_iff,
}

module _ {W Job Rows Writer Backoff S V Value Any Time : Type 0} (structs : Structs S Value)
    (values : Values S V Any Time) (diffs : DiffLaws values) (retry : Retry Backoff)
    (gcs : Upload W Writer) (bq : BigQuery W Job Rows) (cfg : Config) (timestamp : Bytes) where
  abbrev upload_mapping : W → Fallible (Unit {0}) × W
  upload_mapping =
      upload_gcs_file gcs cfg.gcs_bucket_id (mapping_path cfg timestamp)
        (mapping_data cfg (mapping_trace timestamp)) get_prober_gcs_metadata

  abbrev upload_policy : W → Fallible (Unit {0}) × W
  upload_policy =
      upload_gcs_file gcs cfg.gcs_bucket_id (policy_path cfg timestamp)
        (policy_data (policy_trace timestamp)) get_prober_gcs_metadata

  -- The file is uploaded, an attempt within the configured retries finds an entry, the entry is an
  -- event with a mapping, and both are as wanted.
  abbrev pub MappingPasses : W → W → Type 0
  MappingPasses =
      Passed upload_mapping values.unmarshal_event (λ event. values.to_mapping event.payload)
        (FoundText retry bq (mapping_query cfg (mapping_trace timestamp)) cfg)
        (MappingWanted structs values diffs cfg)

  -- The same for the policy.
  abbrev pub PolicyPasses : W → W → Type 0
  PolicyPasses =
      Passed upload_policy values.unmarshal_event (λ event. values.to_struct event.payload)
        (FoundText retry bq (policy_query cfg (policy_trace timestamp)) cfg)
        (PolicyWanted values diffs (policy_trace timestamp))

  module _ (laws : RetryLaws retry none) (w v : W) where
    -- In a context that does not end, the mapping probe returns nil exactly if the file is uploaded,
    -- an attempt within the configured retries finds an entry, and the entry is an event from the
    -- wanted source, with the wanted resource and contacts and the ancestors in the asset
    -- inventory's annotation.
    pub probe_mapping-ok_iff :
        (probe_mapping structs values retry gcs bq cfg timestamp w ≡ (ok tt, v)) ↔ MappingPasses w v
    unfolding probe_mapping
    probe_mapping-ok_iff =
        chain-ok_iff upload_mapping
          (get_first_matched_bq_entry retry bq (mapping_query cfg (mapping_trace timestamp)) cfg)
          values.unmarshal_event (λ event. values.to_mapping event.payload)
          (mapping_diff structs values cfg)
          (FoundText retry bq (mapping_query cfg (mapping_trace timestamp)) cfg)
          (MappingWanted structs values diffs cfg) w v no_mapping_upload no_entry no_event
          no_mapping (λ u text. get_first_matched_bq_entry-ok_iff retry bq _ cfg laws u v text)
          (mapping_diff-none_iff structs values diffs cfg)

    -- In a context that does not end, the policy probe returns nil exactly if the file is uploaded, an
    -- attempt within the configured retries finds an entry, and the entry is an event from the wanted
    -- source, with the uploaded policy as its payload.
    pub probe_policy-ok_iff :
        (probe_policy structs values retry gcs bq cfg timestamp w ≡ (ok tt, v)) ↔ PolicyPasses w v
    unfolding probe_policy
    probe_policy-ok_iff =
        chain-ok_iff upload_policy
          (get_first_matched_bq_entry retry bq (policy_query cfg (policy_trace timestamp)) cfg)
          values.unmarshal_event (λ event. values.to_struct event.payload)
          (policy_diff values (policy_trace timestamp))
          (FoundText retry bq (policy_query cfg (policy_trace timestamp)) cfg)
          (PolicyWanted values diffs (policy_trace timestamp)) w v no_policy_upload no_entry
          no_event no_payload
          (λ u text. get_first_matched_bq_entry-ok_iff retry bq _ cfg laws u v text)
          (policy_diff-none_iff values diffs (policy_trace timestamp))
