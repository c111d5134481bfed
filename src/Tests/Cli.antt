-- ===== src/Tests/Cli.antt =====
-- The command over a directory of three files, one of which is refused.
use pmap.Base.{
  ◌≡◌, refl, Bool, true, false, Option, none, some, List, [], ◌∷◌, ◌++◌, map, Bytes, bytes_eq,
  nat_eq, codes, drop, ◌==◌, if◌then◌else◌,
}
use pmap.Errors.{Err, plain, wrapped, joined, cons, nil, join}
use pmap.Errors.Leaves.{leaves}
use pmap.Errors.Fallible.{value}
use pmap.Go.Strings.{trim_prefix, has_prefix}
use pmap.Api.Validation.{join_found}
use pmap.Cli.Validate.{
  Visit, FileSystem, ext, ext_from, is_yaml, collect, fetch_extracted_yaml_files, origin_file,
  check_file, check_files, processing, validate_resource_mappings,
}
use pmap.Cli.Validate.Accepted.{yaml_files, reports, closing, validate_resource_mappings_report}

abbrev pub quote : Bytes → Bytes
quote s = s

abbrev visit : Bytes → Bool → Visit
visit p d = record { path = p; is_dir = d; failure = none }

abbrev pub visits : List Visit
visits =
    visit (codes "d") true
    ∷ visit (codes "d/a.yaml") false
    ∷ visit (codes "d/b.txt") false
    ∷ visit (codes "d/c.yml") false
    ∷ []

-- A file holds its own path, which is decoded as it is.
abbrev pub fs : FileSystem Bytes
fs = record {
  walk_dir = λ dir. visits;
  read_file = λ path. value path;
  from_yaml = λ content. value content;
}

abbrev validate : Bytes → Option Err
validate m = if m == codes "d/c.yml" then some (plain (codes "bad")) else none

extensions :
    (ext (codes "d/a.yaml") ≡ codes ".yaml")
    × (ext (codes "d.x/a") ≡ [])
    × (is_yaml (codes "d/c.yml") ≡ true)
unfolding ext ext_from is_yaml bytes_eq nat_eq
extensions = (refl, refl, refl)

one_refused : validate_resource_mappings quote fs validate (codes "d") ≡ (
  codes "processing file a.yaml" ∷ codes "processing file c.yml" ∷ [],
  some (joined (cons (wrapped (codes "file c.yml: ") (plain (codes "bad"))) nil)),
)
unfolding validate_resource_mappings fetch_extracted_yaml_files collect check_files check_file
    origin_file ext ext_from is_yaml bytes_eq nat_eq trim_prefix has_prefix drop join_found join
one_refused = refl

validate_resource_mappings_report_example :
    let out = validate_resource_mappings quote fs validate (codes "d") in
    (out.0
      ≡ map (processing quote fs validate (codes "d")) (yaml_files visits)
        ++ closing quote fs validate (codes "d") out.1)
    × (leaves out.1 ≡ reports quote fs validate (codes "d") (yaml_files visits))
validate_resource_mappings_report_example =
    validate_resource_mappings_report quote fs validate (codes "d")
      (refl, (refl, (refl, (refl, tt))))
