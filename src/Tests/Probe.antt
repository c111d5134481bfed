-- ===== src/Tests/Probe.antt =====
-- The probes over an uploader that counts the files, and the table of the tests before.
use native.Mathlib.Decide.{ℕ_discrete}
use mathlib.Core.HLevel.{×_discrete}
use pmap.Base.{
  ℕ, ◌≡◌, ◌≢◌, ◌↔◌, refl, ap, Option, none, some, [], ◌∷◌, Bytes, bytes_eq, nat_eq, codes,
}
use pmap.Base.Dict.{lookup}
use pmap.Errors.{ok, panicked}
use pmap.Errors.Fallible.{value}
use pmap.Go.Strconv.{pos}
use pmap.Server.Source.{GitHubSource}
use pmap.Api.Messages.{Resource, Contacts, ResourceMapping, Structs, annotation_key_asset_info}
use pmap.Testhelper.{Upload, upload_gcs_file, first_entry}
use pmap.Testhelper.Retries.{now, later}
use pmap.Prober.{want_github_source}
use pmap.Prober.Config.{Config, Values, mapping_query, want_resource_mapping}
use pmap.Prober.Probe.{has_ancestors, get_first_matched_bq_entry, probe_mapping, probe_policy}
use pmap.Prober.Probe.Entry.{get_first_matched_bq_entry-no_panic}
use pmap.Prober.Probe.Diffs.{DiffLaws}
use pmap.Prober.Probe.Passes.{
  MappingPasses, PolicyPasses, probe_mapping-ok_iff, probe_policy-ok_iff,
}
use pmap.Prober.Main.{Clients, main}
use pmap.Prober.Main.Success.{Succeeds, main-success_iff}
use pmap.Tests.Testhelper.{entry, retry, retry_laws, big_query}

pub Resources-discrete : Discrete (Option Resource)
Resources-discrete = hlevel (ℕ_discrete)

pub Contacts-discrete : Discrete (Option Contacts)
Contacts-discrete = hlevel (ℕ_discrete)

pub Sources-discrete : Discrete (Option (GitHubSource ℕ))
Sources-discrete = hlevel (ℕ_discrete)

Structs-discrete : Discrete Bytes
Structs-discrete = hlevel (ℕ_discrete)

abbrev pub diff_of : {P : Type 0} → Dec P → Bytes
diff_of (yes p) = []
diff_of (no not_p) = codes "-want +got"

pub diff_of-nil_iff : {P : Type 0} (d : Dec P) → (diff_of d ≡ []) ↔ P
diff_of-nil_iff (yes p) = (λ _. p, λ _. refl)
diff_of-nil_iff (no not_p) = (λ h. absurd (cc), λ p. absurd (not_p p))

-- A struct is a text, and every event is the mapping that the prober wants.
abbrev structs : Structs Bytes (Unit {0})
structs = record { as_map = λ s. (codes "ancestors", tt) ∷ []; new_struct = λ d. value [] }

abbrev seen : Config → ResourceMapping Bytes
seen cfg = record (want_resource_mapping cfg) { annotations = some [] }

abbrev pub cfg : Config
cfg = record {
  project_id = codes "p";
  gcs_bucket_id = codes "bucket";
  big_query_data_set_id = codes "d";
  mapping_table_id = codes "m";
  policy_table_id = codes "q";
  query_retry_wait_duration = pos 5_000_000_000;
  query_retry_limit = 10;
  prober_mapping_gcs_bucket_prefix = codes "mapping";
  prober_policy_gcs_bucket_prefix = codes "policy";
}

abbrev same_mapping : (a b : ResourceMapping Bytes) → Bytes
same_mapping a b = diff_of (
    ×_discrete Resources-discrete Contacts-discrete (a.resource, a.contacts)
      (b.resource, b.contacts))

abbrev values : Values Bytes (Unit {0}) (Unit {0}) ℕ
values = record {
  of_fields = λ d. codes "policy";
  string_value = λ s. tt;
  struct_value = λ s. tt;
  list_value = λ l. tt;
  get_fields = λ s. (annotation_key_asset_info, tt) ∷ [];
  get_struct_value = λ v. some [];
  unmarshal_event = λ text. value (record {
    payload = some tt;
    type = [];
    timestamp = none;
    github_source = some want_github_source;
  });
  to_mapping = λ any. value (seen cfg);
  to_struct = λ any. value (codes "policy");
  diff_mapping = same_mapping;
  diff_struct = λ a b. diff_of (Structs-discrete a b);
  diff_source = λ a b. diff_of (Sources-discrete a b);
}

same_mapping-nil_iff :
    (a b : ResourceMapping Bytes)
    → (same_mapping a b ≡ []) ↔ ((a.resource ≡ b.resource) × (a.contacts ≡ b.contacts))
same_mapping-nil_iff a b =
    let (to, from) = diff_of-nil_iff (
      ×_discrete Resources-discrete Contacts-discrete (a.resource, a.contacts)
        (b.resource, b.contacts)) in
    (λ h. let p = to h in (ap (λ q. q.0) p, ap (λ q. q.1) p), λ (r, c). from (cc))

diffs : DiffLaws values
diffs = record {
  diff_mapping-nil_iff = same_mapping-nil_iff;
  diff_struct-nil_iff = λ a b. diff_of-nil_iff (Structs-discrete a b);
  diff_source-nil_iff = λ a b. diff_of-nil_iff (Sources-discrete a b);
}

abbrev gcs : Upload ℕ (Unit {0})
gcs = record {
  new_writer = λ bucket object metadata. tt;
  copy = λ writer text w. (value tt, w);
  close = λ writer w. (value tt, w);
}

abbrev clients : Clients ℕ (Unit {0}) (Unit {0}) (Unit {0})
clients = record {
  new_gcs = λ w. (value gcs, w);
  new_bq = λ project w. (value big_query, w);
  close_gcs = λ w. w;
  close_bq = λ w. w;
  unix_time = λ w. 1_700_000_000;
}

-- The third query finds the entry, and the mapping probe passes.
mapping_run : MappingPasses structs values diffs retry gcs big_query cfg (codes "17") 0 3
unfolding upload_gcs_file first_entry want_resource_mapping has_ancestors lookup bytes_eq nat_eq
mapping_run = (
  0,
  refl,
  codes "event",
  (0, refl, entry, later refl (later refl (now refl)), refl),
  _,
  refl,
  seen cfg,
  refl,
  (refl, refl, refl, refl),
)

probe_mapping-ok_iff_example :
    probe_mapping structs values retry gcs big_query cfg (codes "17") 0 ≡ (ok tt, 3)
probe_mapping-ok_iff_example =
    (probe_mapping-ok_iff structs values diffs retry gcs big_query cfg (codes "17") retry_laws 0
        3).1
      mapping_run

probe_policy-ok_iff_example :
    (probe_policy structs values retry gcs big_query cfg (codes "17") 3 ≡ (ok tt, 4))
    ↔ PolicyPasses structs values diffs retry gcs big_query cfg (codes "17") 3 4
probe_policy-ok_iff_example =
    probe_policy-ok_iff structs values diffs retry gcs big_query cfg (codes "17") retry_laws 3 4

main-success_iff_example :
    (main structs values retry clients (value cfg) 0 ≡ (ok (0, []), 4))
    ↔ Succeeds structs values retry clients (value cfg) 0 4
main-success_iff_example = main-success_iff structs values retry clients (value cfg) 0 4

get_first_matched_bq_entry-no_panic_example :
    (get_first_matched_bq_entry retry big_query (mapping_query cfg (codes "t")) cfg 0).0 ≢ panicked
get_first_matched_bq_entry-no_panic_example =
    get_first_matched_bq_entry-no_panic retry big_query (mapping_query cfg (codes "t")) cfg
      retry_laws 0 (λ h. cc)
