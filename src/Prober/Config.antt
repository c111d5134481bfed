-- ===== src/Prober/Config.antt =====
-- The configuration of prober/config.go, and what the probes of prober/main.go upload, ask for and
-- want to see. `S` is the type of `structpb.Struct`, `V` of `structpb.Value`, and `Any` of
-- `anypb.Any`.
use pmap.Base.{ℕ, not, Option, none, some, List, [], ◌∷◌, ◌++◌, Bytes, codes, bytes_eq, ◌==◌}
use pmap.Base.Dict.{Dict}
use pmap.Errors.{Err, Result, ok, err, panicked}
use pmap.Errors.Fallible
use pmap.Errors.Fallible.{Fallible, value, failed}
use pmap.Go.Strconv.{ℤ}
use pmap.Go.Strings
use pmap.Server.Source.{GitHubSource}
use pmap.Server.Handler.{PmapEvent}
use pmap.Server.Config.{join_if}
use pmap.Api.Messages.{ResourceMapping}
use pmap.Testhelper.{BqEntry, Query}

abbrev prober_gcs_name_prefix : Bytes
prober_gcs_name_prefix = codes "//storage.googleapis.com"

abbrev prober_mapping_trace_id_prefix : Bytes
prober_mapping_trace_id_prefix = codes "prober-mapping"

abbrev prober_policy_trace_id_prefix : Bytes
prober_policy_trace_id_prefix = codes "prober-policy"

abbrev prober_file_prefix : Bytes
prober_file_prefix = codes "prober-file"

abbrev prober_resource_provider : Bytes
prober_resource_provider = codes "gcp"

abbrev prober_resource_contact : Bytes
prober_resource_contact = codes "pmap-prober@abcxyz.dev"

abbrev pub prober_fake_policy_id : Bytes
prober_fake_policy_id = codes "prober-fake-policy-id"

abbrev pub prober_label : Bytes
prober_label = codes "prober"

-- `config`; the wait is in nanoseconds.
pub record Config : Type 0 where
  pub project_id : Bytes
  pub gcs_bucket_id : Bytes
  pub big_query_data_set_id : Bytes
  pub mapping_table_id : Bytes
  pub policy_table_id : Bytes
  pub query_retry_wait_duration : ℤ
  pub query_retry_limit : ℕ
  pub prober_mapping_gcs_bucket_prefix : Bytes
  pub prober_policy_gcs_bucket_prefix : Bytes

-- `newTestConfig`, of what `envconfig.Process` gives.
unfoldable pub new_test_config : Fallible Config → Fallible Config
new_test_config processed = Fallible.or_wrap processed (codes "failed to process environment: ")

-- The `structpb` values: those that are made and those that are read; the getters take nil too.
pub record Values (S V Any Time : Type 0) : Type 0 where
  pub of_fields : Dict V → S
  pub string_value : Bytes → V
  pub struct_value : S → V
  pub list_value : List V → V
  pub get_fields : Option S → Dict V
  pub get_struct_value : Option V → Option S
  -- `protojson.Unmarshal`, and `UnmarshalTo` for the two types
  pub unmarshal_event : Bytes → Fallible (PmapEvent Any Time)
  pub to_mapping : Option Any → Fallible (ResourceMapping S)
  pub to_struct : Option Any → Fallible S
  -- `cmp.Diff` with `protocmp.Transform`, for mappings without their annotations
  pub diff_mapping : ResourceMapping S → ResourceMapping S → Bytes
  pub diff_struct : S → S → Bytes
  pub diff_source : Option (GitHubSource Time) → Option (GitHubSource Time) → Bytes

-- `fmt.Sprintf("%s-%s", a, b)` and `fmt.Sprintf("%s/%s", a, b)`
abbrev dashed : Bytes → Bytes → Bytes
dashed a b = a ++ (codes "-" ++ b)

abbrev slashed : Bytes → Bytes → Bytes
slashed a b = a ++ (codes "/" ++ b)

abbrev lines : List Bytes → Bytes
lines l = Strings.join l (b'\n' ∷ [])

abbrev pub mapping_trace : Bytes → Bytes
mapping_trace timestamp = dashed prober_mapping_trace_id_prefix timestamp

abbrev pub policy_trace : Bytes → Bytes
policy_trace timestamp = dashed prober_policy_trace_id_prefix timestamp

-- The file that `probeMapping` uploads.
unfoldable pub mapping_data : Config → Bytes → Bytes
mapping_data cfg trace_id = lines (
    []
    ∷ codes "resource:"
    ∷ (codes "  name: " ++ slashed prober_gcs_name_prefix cfg.gcs_bucket_id)
    ∷ (codes "  provider: " ++ prober_resource_provider)
    ∷ codes "annotations:"
    ∷ (codes "  traceID: " ++ trace_id)
    ∷ (codes "  label: " ++ prober_label)
    ∷ codes "contacts:"
    ∷ codes "  email:"
    ∷ (codes "  - " ++ prober_resource_contact)
    ∷ []
    ∷ [])

-- The file that `probePolicy` uploads.
unfoldable pub policy_data : Bytes → Bytes
policy_data trace_id = lines (
    []
    ∷ (codes "policy_id: " ++ prober_fake_policy_id)
    ∷ codes "annotations:"
    ∷ (codes "  traceID: " ++ trace_id)
    ∷ (codes "  label: " ++ prober_label)
    ∷ codes "deletion_timeline:"
    ∷ codes "  - 356 days"
    ∷ codes "  - 1 day"
    ∷ []
    ∷ [])

abbrev select_data : Config → Bytes → Bytes
select_data cfg table =
    codes "SELECT data FROM `"
    ++ (cfg.project_id ++ (b'.' ∷ (cfg.big_query_data_set_id ++ (b'.' ∷ (table ++ codes "`")))))

unfoldable pub mapping_query : Config → Bytes → Query
mapping_query cfg trace_id = record {
  text =
      select_data cfg cfg.mapping_table_id
      ++ codes " WHERE JSON_VALUE(data.payload.annotations.traceID) = ?";
  parameters = trace_id ∷ [];
}

unfoldable pub policy_query : Config → Bytes → Query
policy_query cfg trace_id = record {
  text =
      select_data cfg cfg.policy_table_id
      ++ codes "WHERE JSON_VALUE(data.payload.value.annotations.traceID) = ?";
  parameters = trace_id ∷ [];
}

abbrev pub mapping_path : Config → Bytes → Bytes
mapping_path cfg timestamp =
    slashed cfg.prober_mapping_gcs_bucket_prefix (dashed prober_file_prefix timestamp)

abbrev pub policy_path : Config → Bytes → Bytes
policy_path cfg timestamp =
    slashed cfg.prober_policy_gcs_bucket_prefix (dashed prober_file_prefix timestamp)

-- `wantResourceMapping`
unfoldable pub want_resource_mapping : {S : Type 0} → Config → ResourceMapping S
want_resource_mapping cfg = record {
  resource = some (record {
    provider = prober_resource_provider;
    name = slashed prober_gcs_name_prefix cfg.gcs_bucket_id;
    subscope = [];
  });
  contacts = some (record { email = prober_resource_contact ∷ [] });
  annotations = none;
}

-- `if diff := …; diff != "" { diffErr = errors.Join(diffErr, fmt.Errorf("text%s", diff)) }`
abbrev pub join_diff : Bytes → Bytes → Option Err → Option Err
join_diff text diff e = join_if (not (diff == [])) (text ++ diff) e

-- `return diffErr`
abbrev pub or_nil : Option Err → Result (Unit {0})
or_nil none = ok tt
or_nil (some e) = err e

-- The texts in front of the errors.
abbrev pub no_mapping_upload : Bytes
no_mapping_upload = codes "failed to uploaded mapping object: "

abbrev pub no_policy_upload : Bytes
no_policy_upload = codes "failed to uploaded policy object: "

abbrev pub no_entry : Bytes
no_entry = codes "failed to get match bigquery result: "

abbrev pub no_event : Bytes
no_event = codes "failed to unmarshal bigquery result to pmapevent: "

abbrev pub no_mapping : Bytes
no_mapping = codes "failed to unmarshal to resource mapping: "

abbrev pub no_payload : Bytes
no_payload = codes "failed to unmarshal to gotPayload: "

abbrev pub mapping_differs : Bytes
mapping_differs =
    codes "resourcemapping(ignore annotation) unexpected diff (-want,+got):" ++ (b'\n' ∷ [])

abbrev pub payload_differs : Bytes
payload_differs = codes "gotPayload unexpected diff (-want,+got):" ++ (b'\n' ∷ [])

abbrev pub no_ancestors : Bytes
no_ancestors = codes "ancestors is blank in resourcemapping.annotations"

abbrev pub source_differs : Bytes
source_differs = codes "githubSource unexpected diff (-want, +got):" ++ (b'\n' ∷ [])

abbrev pub entry_data : Option BqEntry → Result Bytes
entry_data none = panicked
entry_data (some entry) = ok entry.data_text
