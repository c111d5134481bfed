-- ===== src/Mapping/Inventory.antt =====
-- `AssetInventoryProcessor` of pkg/mapping/processors/assetinventory.go.
pub mod Search
pub mod Enrich
pub mod Refusals
pub mod Create
pub mod Succeeds
pub mod Ancestors
use pmap.Base.{
  ℕ, Bool, true, false, not, Option, none, some, List, [], ◌∷◌, ◌++◌, map, Bytes, codes, length,
  ◌==◌, bytes_eq, nat_eq, if◌then◌else◌,
}
use pmap.Base.Dict.{Dict, insert}
use pmap.Errors.{Err, plain, wrapped, new, message}
use pmap.Errors.Fallible.{Fallible, value, failed, ◌>>=◌, or_wrap, or_new}
use pmap.Go.Fmt.{decimal}
use pmap.Api.{Resource, ResourceMapping, Structs, get_provider, get_name, annotation_key_asset_info}
use pmap.Mapping.Scope.{parse_scope}
use pmap.Mapping.Merge.{merge_annotations}

abbrev pub gcp_provider : Bytes
gcp_provider = codes "gcp"

abbrev pub page_size : ℕ
page_size = 3

-- The calls of `Next` on an iterator, up to `iterator.Done` or another error.
pub data Stream (A : Type 0) : Type 0 where
  done : Stream A
  broken : Err → Stream A
  next : A → Stream A → Stream A

pub record Tag : Type 0 where
  pub tag_key : Bytes
  pub tag_value : Bytes

-- `assetpb.ResourceSearchResult`, as far as it is read
pub record SearchResult (Time : Type 0) : Type 0 where
  pub organization : Bytes
  pub folders : List Bytes
  pub project : Bytes
  pub location : Bytes
  pub labels : Dict Bytes
  pub create_time : Option Time
  pub tags : List Tag

pub record ResourcesRequest : Type 0 where
  pub scope : Bytes
  pub query : Bytes
  pub page_size : ℕ

pub record PoliciesRequest : Type 0 where
  pub scope : Bytes
  pub query : Bytes

-- `asset.Client`
pub record AssetClient (Time Policy : Type 0) : Type 0 where
  pub search_all_resources : ResourcesRequest → Stream (SearchResult Time)
  pub search_all_iam_policies : PoliciesRequest → Stream Policy

-- The values that are put into the annotations.
pub data AnnoValue (Time Policy : Type 0) : Type 0 where
  text : Bytes → AnnoValue Time Policy
  texts : List Bytes → AnnoValue Time Policy
  labels : Dict Bytes → AnnoValue Time Policy
  time : Time → AnnoValue Time Policy
  policies : List Policy → AnnoValue Time Policy

-- `AssetInventoryProcessor`
pub record AssetInventoryProcessor (Time Policy : Type 0) : Type 0 where
  pub default_resource_scope : Bytes
  pub client : AssetClient Time Policy

unfoldable pub not_single : ℕ → Err
unfolding decimal
not_single n = plain (decimal n ++ codes " matched resources found, expected 1 matched resource")

module _ {A : Type 0} where
  -- The loop over an iterator, with what was read so far.
  unfoldable pub read_all : Bytes → Stream A → List A → Fallible (List A)
  read_all failure done found = value found
  read_all failure (broken e) found = failed (wrapped failure e)
  read_all failure (next a rest) found = read_all failure rest (found ++ a ∷ [])

  -- `if got, want := len(resources), 1; got != want { … }; return resources[0], nil`
  unfoldable pub single : List A → Fallible A
  single (a ∷ []) = value a
  single l = failed (not_single (length l))

-- `if v != "" { ancestors = append(ancestors, v) }`
abbrev append_text : Bytes → List Bytes → List Bytes
append_text v l = if v == [] then l else l ++ v ∷ []

module _ {Time : Type 0} where
  unfoldable pub ancestors : SearchResult Time → List Bytes
  ancestors r = append_text r.project (append_text r.organization [] ++ r.folders)

module _ {Time Policy : Type 0} where
  unfoldable pub get_single_resource :
      AssetClient Time Policy → ResourcesRequest → Fallible (SearchResult Time)
  unfolding read_all single
  get_single_resource client req = do
    resources ← read_all (codes "failed to search resources: ") (client.search_all_resources req) []
    single resources

  unfoldable pub get_iam_policies :
      AssetClient Time Policy → PoliciesRequest → Fallible (List Policy)
  unfolding read_all
  get_iam_policies client req =
      read_all (codes "failed to search IAM policies: ") (client.search_all_iam_policies req) []

  -- `if len(v) != 0 { annos[key] = v }`
  unfoldable pub put_texts :
      Bytes → List Bytes → Dict (AnnoValue Time Policy) → Dict (AnnoValue Time Policy)
  put_texts key [] annos = annos
  put_texts key (v ∷ vs) annos = insert key (texts (v ∷ vs)) annos

  unfoldable pub put_text :
      Bytes → Bytes → Dict (AnnoValue Time Policy) → Dict (AnnoValue Time Policy)
  put_text key v annos = if v == [] then annos else insert key (text v) annos

  unfoldable pub put_labels :
      Bytes → Dict Bytes → Dict (AnnoValue Time Policy) → Dict (AnnoValue Time Policy)
  put_labels key [] annos = annos
  put_labels key (l ∷ ls) annos = insert key (labels (l ∷ ls)) annos

  unfoldable pub put_time :
      Bytes → Option Time → Dict (AnnoValue Time Policy) → Dict (AnnoValue Time Policy)
  put_time key none annos = annos
  put_time key (some t) annos = insert key (time t) annos

  unfoldable pub put_policies :
      Bytes → List Policy → Dict (AnnoValue Time Policy) → Dict (AnnoValue Time Policy)
  put_policies key [] annos = annos
  put_policies key (p ∷ ps) annos = insert key (policies (p ∷ ps)) annos

  -- `assetInventoryAnnos`
  unfoldable pub asset_inventory_annos :
      SearchResult Time → List Policy → Dict (AnnoValue Time Policy)
  unfolding ancestors put_texts put_text put_labels put_time put_policies
  asset_inventory_annos r iam =
      let a0 = put_texts (codes "ancestors") (ancestors r) [] in
      let a1 = put_text (codes "location") r.location a0 in
      let a2 = put_labels (codes "labels") r.labels a1 in
      let a3 = put_time (codes "createTime") r.create_time a2 in
      let a4 = put_texts (codes "tagKeys") (map (λ (t : Tag). t.tag_key) r.tags) a3 in
      let a5 = put_texts (codes "tagValues") (map (λ (t : Tag). t.tag_value) r.tags) a4 in
      put_policies (codes "iamPolicies") iam a5

  -- `quote` is `%q`, which only error texts show. `to_proto_struct` is `protoutil.ToProtoStruct`.
  module _ {S Value : Type 0} (structs : Structs S Value) (quote : Bytes → Bytes)
      (to_proto_struct : Dict (Dict (AnnoValue Time Policy)) → Fallible S)
      (p : AssetInventoryProcessor Time Policy) where
    abbrev no_policies : Bytes → Bytes → Bytes
    no_policies query scope =
        codes "failed to get IAM policies with query "
        ++ (quote query ++ (codes " resourceScope " ++ (quote scope ++ codes ": ")))

    -- `validateAndEnrich`
    unfoldable pub validate_and_enrich : Bytes → Bytes → Fallible S
    validate_and_enrich resource_scope resource_name = do
      resource ←
          or_new
            (get_single_resource p.client (record {
              scope = resource_scope;
              query = codes "name=" ++ resource_name;
              page_size = page_size;
            }))
            (codes "failed to get single matched resource: ")
      let iam_query = codes "resource=" ++ resource_name
      iam_policies ←
          or_wrap (get_iam_policies p.client (record { scope = resource_scope; query = iam_query }))
            (no_policies iam_query resource_scope)
      or_wrap
          (to_proto_struct
            ((annotation_key_asset_info, asset_inventory_annos resource iam_policies) ∷ []))
          (codes "failed to convert Asset Inventory annotations to structpb.Struct: ")

    abbrev pub or_default : Bytes → Bytes
    or_default scope = if scope == [] then p.default_resource_scope else scope

    abbrev pub not_enriched : Bytes → Bytes → Bytes
    not_enriched name scope =
        codes "failed to validate and enrich with resource "
        ++ (quote name ++ (codes " in resourceScope " ++ (quote scope ++ codes ": ")))

    -- The new annotations of a mapping of provider gcp.
    unfoldable pub enriched : ResourceMapping S → Fallible S
    enriched mapping = do
      let resource_name = get_name mapping.resource
      scope ← or_new (parse_scope resource_name) (codes "failed to parse project: ")
      let resource_scope = or_default scope
      additional_annos ←
          or_wrap (validate_and_enrich resource_scope resource_name)
            (not_enriched resource_name resource_scope)
      merge_annotations structs mapping.annotations (some additional_annos)

    abbrev annotate : ResourceMapping S → Fallible S → Option Err × ResourceMapping S
    annotate mapping (value annos) = (none, record mapping { annotations = some annos })
    annotate mapping (failed e) = (some e, mapping)

    -- `Process`
    unfoldable pub process : ResourceMapping S → Option Err × ResourceMapping S
    process mapping =
        if get_provider mapping.resource == gcp_provider
        then annotate mapping (enriched mapping)
        else (none, mapping)
