-- ===== src/Tests/Mapping.antt =====
-- The processor over a small asset inventory, with annotations that are maps.
use pmap.Base.{
  ℕ, ◌≡◌, ◌≢◌, ◌↔◌, ◌⊎◌, refl, sym, ap, ◌∙◌, Option, none, some, [], ◌∷◌, ◌++◌, Bytes, bytes_eq,
  nat_eq, codes, arith, ◌==◌, if◌then◌else◌,
}
use pmap.Base.Dict.{Dict, lookup, insert, NodupKeys, lookup-cons, lookup-insert, insert-NodupKeys}
use pmap.Errors.{Err, plain}
use pmap.Errors.Fallible.{Fallible, value, failed}
use pmap.Go.Strings.{split}
use pmap.Api.{ResourceMapping, Structs, annotation_key_asset_info}
use pmap.Mapping.Scope.{is_scope_word, is_dangling, scan, scope_text, invalid_name, parse_scope}
use pmap.Mapping.Scope.Laws.{NoWord, Dangling, LastScope, parse_scope-failed_iff, parse_scope-value}
use pmap.Mapping.Merge.{merge_annotations}
use pmap.Mapping.Inventory.{
  done, broken, next, SearchResult, AssetClient, AnnoValue, texts, policies, text,
  AssetInventoryProcessor, gcp_provider, get_single_resource, get_iam_policies,
  asset_inventory_annos, process, enriched, validate_and_enrich,
}
use pmap.Mapping.Inventory.Enrich.{IsLawful, process-keeps, Annotated, process-annotations}

abbrev pub Annos : Type 0
Annos = Dict (AnnoValue ℕ Bytes)

abbrev pub Struct : Type 0
Struct = (d : Dict Annos) × NodupKeys d

unfoldable pub struct_of : Dict Annos → Struct
struct_of [] = ([], tt)
struct_of ((k, v) ∷ d) = let (e, u) = struct_of d in (insert k v e, insert-NodupKeys k v e u)

abbrev pub as_map : Option Struct → Dict Annos
as_map none = []
as_map (some s) = s.0

abbrev pub structs : Structs Struct Annos
structs = record { as_map = as_map; new_struct = λ m. value (struct_of m) }

lookup-struct_of : (m : Dict Annos) (k : Bytes) → lookup k (struct_of m).0 ≡ lookup k m
unfolding struct_of
lookup-struct_of [] k = refl
lookup-struct_of ((j, v) ∷ d) k =
    ground (arith, lookup-struct_of d k, lookup-cons k j v d, lookup-insert k j v (struct_of d).0)

as_map-NodupKeys : (s : Option Struct) → NodupKeys (as_map s)
as_map-NodupKeys none = tt
as_map-NodupKeys (some s) = s.1

value-inj : {s t : Struct} → ◌≡◌ {A = Fallible Struct} (value s) (value t) → s ≡ t
value-inj h = cc

pub laws : IsLawful structs
laws = record {
  as_map-NodupKeys = as_map-NodupKeys;
  as_map-new_struct =
      λ m s h k. ap (λ (t : Struct). lookup k t.0) (sym (value-inj h)) ∙ lookup-struct_of m k;
}

pub packs :
    (d : Dict Annos) (s : Struct)
    → ◌≡◌ {A = Fallible Struct} (value (struct_of d)) (value s)
    → (k : Bytes) → (lookup k s.0 ≡ none) ↔ (lookup k d ≡ none)
packs d s h k =
    let same = ap (λ (t : Struct). lookup k t.0) (sym (value-inj h)) ∙ lookup-struct_of d k in
    (λ e. sym same ∙ e, λ e. same ∙ e)

abbrev pub quote : Bytes → Bytes
quote s = s

abbrev pub bucket : SearchResult ℕ
bucket = record {
  organization = [];
  folders = codes "folders/2" ∷ [];
  project = codes "projects/1";
  location = [];
  labels = [];
  create_time = none;
  tags = [];
}

-- Of two names the first is found, and its policies are; those of the other are not.
abbrev pub name : Bytes
name = codes "//x/projects/1/b"

abbrev pub other_name : Bytes
other_name = codes "//x/projects/1/c"

abbrev pub client : AssetClient ℕ Bytes
client = record {
  search_all_resources = λ req.
      if req.query == codes "name=" ++ name
      then next bucket done
      else if req.query == codes "name=" ++ other_name
      then next bucket done
      else done;
  search_all_iam_policies = λ req.
      if req.query == codes "resource=" ++ name
      then next (codes "admin") (next (codes "viewer") done)
      else broken (plain (codes "denied"));
}

abbrev pub processor : AssetInventoryProcessor ℕ Bytes
processor = record { default_resource_scope = codes "organizations/9"; client = client }

abbrev pub own_note : Annos
own_note = (codes "note", text (codes "kept")) ∷ []

abbrev pub mapping_of : Bytes → ResourceMapping Struct
mapping_of n = record {
  resource = some (record { provider = gcp_provider; name = n; subscope = [] });
  contacts = none;
  annotations = some (struct_of ((codes "own", own_note) ∷ []));
}

abbrev pub new_struct : Dict Annos → Fallible Struct
new_struct m = value (struct_of m)

abbrev process_small : ResourceMapping Struct → Option Err × ResourceMapping Struct
process_small = process structs quote new_struct processor

abbrev asset_info : Annos
asset_info =
    (codes "ancestors", texts (codes "folders/2" ∷ codes "projects/1" ∷ []))
    ∷ (codes "iamPolicies", policies (codes "admin" ∷ codes "viewer" ∷ []))
    ∷ []

annotated_run :
    ((process_small (mapping_of name)).0 ≡ none)
    × (lookup annotation_key_asset_info (as_map (process_small (mapping_of name)).1.annotations)
        ≡ some asset_info)
    × (lookup (codes "own") (as_map (process_small (mapping_of name)).1.annotations)
        ≡ some own_note)
unfolding process parse_scope split merge_annotations struct_of asset_inventory_annos insert lookup
    get_single_resource get_iam_policies bytes_eq nat_eq enriched validate_and_enrich is_scope_word
    scan is_dangling scope_text
annotated_run = (refl, refl, refl)

process-annotations_example :
    (t : Struct) × Annotated structs quote new_struct processor
      (mapping_of name)
      t
      (process_small (mapping_of name)).1.annotations
unfolding process parse_scope split merge_annotations struct_of asset_inventory_annos insert lookup
    get_single_resource get_iam_policies bytes_eq nat_eq enriched validate_and_enrich is_scope_word
    scan is_dangling scope_text
process-annotations_example =
    process-annotations structs quote new_struct processor (mapping_of name) laws packs refl refl

process-keeps_example :
    let out = process_small (mapping_of name) in
    (out.1.resource ≡ some (record { provider = gcp_provider; name = name; subscope = [] }))
    × (out.1.contacts ≡ none)
    × ((out.0 ≡ none) ⊎ (out.1 ≡ mapping_of name))
process-keeps_example = process-keeps structs quote new_struct processor (mapping_of name)

abbrev pub dangling_name : Bytes
dangling_name = codes "//x/folders"

parse_scope-failed_iff_example :
    (parse_scope dangling_name ≡ failed (invalid_name dangling_name))
    ↔ Dangling (split dangling_name (codes "/"))
parse_scope-failed_iff_example = parse_scope-failed_iff dangling_name

parse_scope-value_example :
    (NoWord (split name (codes "/")) × (codes "projects/1" ≡ []))
    ⊎ ((w : Bytes) × (id : Bytes) × LastScope (split name (codes "/")) w id
        × (id ≢ [])
        × (codes "projects/1" ≡ w ++ (codes "/" ++ id)))
unfolding parse_scope split nat_eq bytes_eq is_scope_word scan is_dangling scope_text
parse_scope-value_example = parse_scope-value name (codes "projects/1") refl
