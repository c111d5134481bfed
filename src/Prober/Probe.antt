-- ===== src/Prober/Probe.antt =====
-- `probeMapping` and `probePolicy` of prober/main.go. Logging is left out.
pub mod Entry
pub mod Chain
pub mod Diffs
pub mod Passes
use pmap.Base.{not, Option, none, some, [], ◌∷◌, ◌++◌, Bytes, codes, bytes_eq, Bool}
use pmap.Base.Dict.{lookup}
use pmap.Errors.{Err}
use pmap.Errors.Act.{Act, lift, call, or_wrap, ◌>>=◌, ◌>>◌}
use pmap.Server.Handler.{PmapEvent}
use pmap.Server.Config.{join_if}
use pmap.Api.Messages.{ResourceMapping, Structs, annotation_key_asset_info}
use pmap.Api.Validation.{is_found}
use pmap.Testhelper.{Query, BigQuery, Retry, single_bq_entry, Upload, upload_gcs_file}
use pmap.Prober.{get_prober_gcs_metadata, want_github_source}
use pmap.Prober.Config.{
  Config, Values, mapping_trace, policy_trace, mapping_data, policy_data, mapping_query,
  policy_query, mapping_path, policy_path, want_resource_mapping, join_diff, or_nil,
  no_mapping_upload, no_policy_upload, no_entry, no_event, no_mapping, no_payload, mapping_differs,
  payload_differs, no_ancestors, source_differs, entry_data, prober_label, prober_fake_policy_id,
}

module _ {W Job Rows Backoff : Type 0} (retry : Retry Backoff) where
  -- `getFirstMatchedBQEntry`
  unfoldable pub get_first_matched_bq_entry : BigQuery W Job Rows → Query → Config → Act W Bytes
  get_first_matched_bq_entry bq q cfg = do
    constant ← λ w. (retry.new_constant cfg.query_retry_wait_duration, w)
    let backoff = retry.with_max_retries cfg.query_retry_limit constant
    entry ←
        or_wrap (call (single_bq_entry bq retry q backoff))
          (codes "failed to get matched bq entry: ")
    λ w. (entry_data entry, w)

module _ {S V Any Time : Type 0} (values : Values S V Any Time) where
  -- `wantPayload`
  unfoldable pub want_payload : Bytes → S
  want_payload trace_id =
      let annotations =
        (codes "traceID", values.string_value trace_id)
        ∷ (codes "label", values.string_value prober_label)
        ∷ [] in
      let timeline =
        values.string_value (codes "356 days") ∷ values.string_value (codes "1 day") ∷ [] in
      values.of_fields (
        (codes "annotations", values.struct_value (values.of_fields annotations))
        ∷ (codes "deletion_timeline", values.list_value timeline)
        ∷ (codes "policy_id", values.string_value prober_fake_policy_id)
        ∷ [])

  -- What `probePolicy` has against an event and the policy in it.
  unfoldable pub policy_diff : Bytes → PmapEvent Any Time → S → Option Err
  policy_diff trace_id event payload =
      let e1 =
        join_diff payload_differs (values.diff_struct (want_payload trace_id) payload) none in
      join_diff source_differs (values.diff_source (some want_github_source) event.github_source) e1

module _ {S V Value Any Time : Type 0} (structs : Structs S Value)
    (values : Values S V Any Time) where
  -- `resourceMapping.GetAnnotations().GetFields()[…].GetStructValue().AsMap()["ancestors"]`
  unfoldable pub has_ancestors : ResourceMapping S → Bool
  has_ancestors m =
      let asset_info = lookup annotation_key_asset_info (values.get_fields m.annotations) in
      is_found (lookup (codes "ancestors") (structs.as_map (values.get_struct_value asset_info)))

  -- What `probeMapping` has against an event and the mapping in it.
  unfoldable pub mapping_diff : Config → PmapEvent Any Time → ResourceMapping S → Option Err
  mapping_diff cfg event m =
      let e1 = join_diff mapping_differs (values.diff_mapping (want_resource_mapping cfg) m) none in
      let e2 =
        join_diff source_differs (values.diff_source (some want_github_source) event.github_source)
          e1 in
      join_if (not (has_ancestors m)) no_ancestors e2

  module _ {W Job Rows Writer Backoff : Type 0} (retry : Retry Backoff) (gcs : Upload W Writer)
      (bq : BigQuery W Job Rows) (cfg : Config) where
    -- `probeMapping`
    unfoldable pub probe_mapping : Bytes → Act W (Unit {0})
    probe_mapping timestamp = do
      let trace_id = mapping_trace timestamp
      let upload =
          upload_gcs_file gcs cfg.gcs_bucket_id (mapping_path cfg timestamp)
            (mapping_data cfg trace_id) get_prober_gcs_metadata
      or_wrap (call upload) no_mapping_upload
      entry ←
          or_wrap (get_first_matched_bq_entry retry bq (mapping_query cfg trace_id) cfg) no_entry
      event ← or_wrap (lift (values.unmarshal_event entry)) no_event
      m ← or_wrap (lift (values.to_mapping event.payload)) no_mapping
      λ w. (or_nil (mapping_diff cfg event m), w)

    -- `probePolicy`
    unfoldable pub probe_policy : Bytes → Act W (Unit {0})
    probe_policy timestamp = do
      let trace_id = policy_trace timestamp
      let upload =
          upload_gcs_file gcs cfg.gcs_bucket_id (policy_path cfg timestamp) (policy_data trace_id)
            get_prober_gcs_metadata
      or_wrap (call upload) no_policy_upload
      entry ← or_wrap (get_first_matched_bq_entry retry bq (policy_query cfg trace_id) cfg) no_entry
      event ← or_wrap (lift (values.unmarshal_event entry)) no_event
      payload ← or_wrap (lift (values.to_struct event.payload)) no_payload
      λ w. (or_nil (policy_diff values trace_id event payload), w)
