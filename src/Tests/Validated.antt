-- ===== src/Tests/Validated.antt =====
-- A file that the command accepts, and the mapping service behind it.
use pmap.Base.{◌≡◌, refl, false, Option, none, [], ◌∷◌, Bytes, bytes_eq, nat_eq, codes, take}
use pmap.Base.Dict.{lookup, insert}
use pmap.Errors.{Err, Result, ok}
use pmap.Errors.Fallible.{Fallible, value}
use pmap.Go.Io.{read_all_limited}
use pmap.Api.{ResourceMapping}
use pmap.Api.Validation.{validate_emails, validate_resource, validate_resource_mapping, join_found}
use pmap.Api.Subscope.{validate_subscope}
use pmap.Server.Config.{join_if}
use pmap.Cli.Validate.{
  FileSystem, ext, ext_from, is_yaml, collect, fetch_extracted_yaml_files, origin_file, check_file,
  check_files, validate_resource_mappings,
}
use pmap.Server.Handler.{
  finish_event, get_gcs_object_bytes, generate_pmap_event_bytes, run_processors,
}
use pmap.Service.{mapping_service}
use pmap.Service.Validated.{Keeps, generate-validated}
use pmap.Tests.Mapping.{
  Struct, struct_of, structs, quote, name, processor, mapping_of, new_struct, laws, packs,
}
use pmap.Tests.Service.{codec, storage, uploaded, messenger}

abbrev url_parse : Bytes → Fallible Bytes
url_parse s = value []

abbrev parse_address : Bytes → Option Err
parse_address s = none

-- The one file holds the name of a resource.
abbrev fs : FileSystem (ResourceMapping Struct)
fs = record {
  walk_dir = λ dir. record { path = codes "d/a.yaml"; is_dir = false; failure = none } ∷ [];
  read_file = λ path. value name;
  from_yaml = λ content. value (mapping_of content);
}

command_passes :
    (validate_resource_mappings quote fs
      (validate_resource_mapping quote url_parse structs parse_address)
      (codes "d")).1
    ≡ none
unfolding validate_resource_mappings fetch_extracted_yaml_files collect check_files check_file
    origin_file ext ext_from is_yaml bytes_eq nat_eq validate_resource_mapping validate_emails
    validate_resource validate_subscope join_found lookup join_if struct_of insert
command_passes = refl

ok-eq :
    (x : ResourceMapping Struct)
    → ◌≡◌ {A = Fallible (ResourceMapping Struct)} (value (mapping_of name)) (value x)
    → ◌≡◌ {A = Result (ResourceMapping Struct)} (ok (mapping_of name)) (ok x)
ok-eq x h = cc

generate-validated_example :
    let service = mapping_service structs quote new_struct processor storage messenger messenger in
    (mapping : ResourceMapping Struct) × (fs.from_yaml name ≡ value mapping)
    × (validate_resource_mapping quote url_parse structs parse_address mapping ≡ none)
    × (generate_pmap_event_bytes codec service (uploaded name)
        ≡ finish_event codec (uploaded name) (run_processors service.processors mapping))
    × Keeps structs mapping.annotations (run_processors service.processors mapping).1.annotations
unfolding get_gcs_object_bytes lookup bytes_eq nat_eq read_all_limited take ext ext_from is_yaml
generate-validated_example =
    generate-validated structs quote new_struct processor laws packs url_parse parse_address codec
      storage messenger messenger (uploaded name) fs (codes "d") (codes "d/a.yaml") [] [] {b = name}
      refl command_passes refl ok-eq refl
