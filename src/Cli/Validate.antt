-- ===== src/Cli/Validate.antt =====
-- `MappingValidateCommand` of pkg/cli/mapping_validate.go.
pub mod Accepted
pub mod Runs
use pmap.Base.{
  Bool, ◌||◌, Option, none, some, List, [], ◌∷◌, ◌++◌, Bytes, codes, ◌==◌, bytes_eq, nat_eq,
  if◌then◌else◌,
}
use pmap.Errors.{Err, plain, wrapped}
use pmap.Errors.Fallible.{Fallible, value, failed, ◌>>=◌, or_wrap}
use pmap.Go.Flags.{Section}
use pmap.Go.Strings.{trim_prefix}
use pmap.Api.Validation.{join_found}
use pmap.Server.Config.{show_list}

-- One call of the function that `filepath.WalkDir` is given.
pub record Visit : Type 0 where
  pub path : Bytes
  pub is_dir : Bool
  pub failure : Option Err

-- What the command reads: the walk over a directory, the files, and the YAML decoder.
pub record FileSystem (M : Type 0) : Type 0 where
  pub walk_dir : Bytes → List Visit
  pub read_file : Bytes → Fallible Bytes
  pub from_yaml : Bytes → Fallible M

-- `Flags`, for the variable `flagPath`
unfoldable pub validate_flags : List (Section Bytes)
validate_flags =
    record {
      title = codes "COMMAND OPTIONS";
      vars =
          record {
            name = codes "path";
            target = λ v flag_path. v;
            env_var = [];
            default = [];
            example = codes "/path/to/file";
            usage = codes "The path of resource mapping files.";
          }
          ∷ [];
    }
    ∷ []

-- `filepath.Ext`: from the last dot behind the last slash.
unfoldable pub ext_from : Bytes → Bytes → Bytes
ext_from [] found = found
ext_from (c ∷ s) found = ext_from s (if c == b'/' then [] else if c == b'.' then c ∷ s else found)

unfoldable pub ext : Bytes → Bytes
unfolding ext_from
ext path = ext_from path []

unfoldable pub is_yaml : Bytes → Bool
is_yaml path = ext path == codes ".yml" || ext path == codes ".yaml"

-- `quote` is `%q`, and `validate` is `v1alpha1.ValidateResourceMapping`.
module _ (quote : Bytes → Bytes) where
  -- The walk, which an error stops.
  unfoldable pub collect : List Visit → List Bytes → Fallible (List Bytes)
  collect [] files = value files
  collect (v ∷ vs) files =
      let more = collect vs (files ++ v.path ∷ []) in
      let same = collect vs files in
      elim v.failure [
        | some e ↦
            failed
              (wrapped (codes "failed to walking directory " ++ (quote v.path ++ codes ": ")) e)
        | none ↦ if v.is_dir then same else if is_yaml v.path then more else same
      ]

  -- `fetchExtractedYAMLFiles`
  unfoldable pub fetch_extracted_yaml_files : List Visit → Bytes → Fallible (List Bytes)
  unfolding collect
  fetch_extracted_yaml_files visits local_dir =
      or_wrap (collect visits [])
        (codes "failed to walk the directory " ++ (local_dir ++ codes ": "))

  module _ {M : Type 0} (fs : FileSystem M) (validate : M → Option Err) where
    abbrev check_mapping : Bytes → Fallible M → Option Err
    check_mapping origin (failed e) = some (
        wrapped
          (codes "file "
            ++ (quote origin ++ codes ": failed to unmarshal yaml to ResourceMapping: "))
          e)
    check_mapping origin (value m) = elim (validate m) [
      | none ↦ none
      | some e ↦ some (wrapped (codes "file " ++ (quote origin ++ codes ": ")) e)
    ]

    abbrev check_content : Bytes → Fallible Bytes → Option Err
    check_content origin (failed e) =
        some (wrapped (codes "failed to read file from " ++ (quote origin ++ codes ", ")) e)
    check_content origin (value content) = check_mapping origin (fs.from_yaml content)

    -- The path as it is shown: without the directory.
    unfoldable pub origin_file : Bytes → Bytes → Bytes
    unfolding trim_prefix
    origin_file dir file = trim_prefix file (dir ++ codes "/")

    -- One round of the loop: the error of a file, if it has one.
    unfoldable pub check_file : Bytes → Bytes → Option Err
    check_file dir file = check_content (origin_file dir file) (fs.read_file file)

    abbrev pub processing : Bytes → Bytes → Bytes
    processing dir file = codes "processing file " ++ quote (origin_file dir file)

    -- The loop over the files, with the lines written and the errors joined so far.
    unfoldable pub check_files :
        Bytes → List Bytes → List Bytes → Option Err → List Bytes × Option Err
    check_files dir [] out errs = (out, errs)
    check_files dir (f ∷ fs') out errs =
        check_files dir fs' (out ++ processing dir f ∷ []) (join_found errs (check_file dir f))

    abbrev passed : List Bytes × Option Err → List Bytes × Option Err
    passed (out, none) = (out ++ codes "Validation passed" ∷ [], none)
    passed (out, some e) = (out, some e)

    abbrev check_fetched : Bytes → Fallible (List Bytes) → List Bytes × Option Err
    check_fetched dir (failed e) = (
      [],
      some (wrapped (codes "failed to fetch extracted files in dir " ++ (dir ++ codes ": ")) e),
    )
    check_fetched dir (value files) = passed (check_files dir files [] none)

    -- `validateResourceMappings`: the lines written, and the error returned.
    unfoldable pub validate_resource_mappings : Bytes → List Bytes × Option Err
    validate_resource_mappings dir =
        check_fetched dir (fetch_extracted_yaml_files (fs.walk_dir dir) dir)

    -- `Run`, on what the parser of flags gives: the flag `path`, and the arguments left.
    abbrev run_parsed : Fallible (Bytes × List Bytes) → List Bytes × Option Err
    run_parsed (failed e) = ([], some (wrapped (codes "failed to parse flags: ") e))
    run_parsed (value (path, a ∷ args)) =
        ([], some (plain (codes "unexpected arguments: " ++ show_list (a ∷ args))))
    run_parsed (value (path, [])) =
        if path == []
        then ([], some (plain (codes "path is required")))
        else validate_resource_mappings path

    unfoldable pub run :
        (List Bytes → Fallible (Bytes × List Bytes)) → List Bytes → List Bytes × Option Err
    run parse args = run_parsed (parse args)
