-- ===== src/Cli/Validate/Runs.antt =====
-- When `Run` of `MappingValidateCommand` returns nil, and what it has written.
use pmap.Base.{
  ◌≡◌, ◌≢◌, ◌↔◌, refl, sym, ◌∙◌, ap, Option, none, List, [], ◌∷◌, ◌++◌, map, Bytes, codes, All,
  bytes_eq, arith,
}
use pmap.Errors.{Err}
use pmap.Errors.Fallible.{Fallible, value, failed}
use pmap.Cli.Validate.{FileSystem, processing, validate_resource_mappings, run_parsed, run}
use pmap.Cli.Validate.Accepted.{
  Good, yaml_files, closing, validate_resource_mappings-none_iff, validate_resource_mappings_report,
}

pair-eq : {A B : Type 0} {a c : A} {b d : B} → a ≡ c → b ≡ d → ◌≡◌ {A = A × B} (a, b) (c, d)
pair-eq p q = cc

module _ {M : Type 0} (quote : Bytes → Bytes) (fs : FileSystem M) (validate : M → Option Err) where
  -- The directory is accepted.
  abbrev pub Accepts : Bytes → Type 0
  Accepts dir =
      All (λ v. v.failure ≡ none) (fs.walk_dir dir)
      × All (Good fs validate) (yaml_files (fs.walk_dir dir))

  -- What is written for a directory that is accepted.
  abbrev pub lines : Bytes → List Bytes
  lines dir =
      map (processing quote fs validate dir) (yaml_files (fs.walk_dir dir))
      ++ codes "Validation passed" ∷ []

  validate_resource_mappings-eq :
      (dir : Bytes) (out : List Bytes)
      → (validate_resource_mappings quote fs validate dir ≡ (out, none))
        ↔ (Accepts dir × (out ≡ lines dir))
  validate_resource_mappings-eq dir out =
      let r = validate_resource_mappings quote fs validate dir in
      let (to, from) = validate_resource_mappings-none_iff quote fs validate dir in
      let written : Accepts dir → r.1 ≡ none → r.0 ≡ lines dir = λ fine e.
        (validate_resource_mappings_report quote fs validate dir fine.0).0
        ∙ ap
            (λ x.
              map (processing quote fs validate dir) (yaml_files (fs.walk_dir dir))
              ++ closing quote fs validate dir x)
            e in
      (
        λ h.
            let passed : r.1 ≡ none = ap (λ x. x.1) h in
            let fine = to passed in (fine, sym (ap (λ x. x.0) h) ∙ written fine passed),
        λ (fine, same). let passed = from fine in pair-eq (written fine passed ∙ sym same) passed,
      )

  -- The arguments are a path and no more, the directory there is accepted, and what is written is
  -- what its files call for.
  abbrev pub Validates : Fallible (Bytes × List Bytes) → List Bytes → Type 0
  Validates parsed out =
      (path : Bytes) × (parsed ≡ value (path, [])) × (path ≢ []) × Accepts path × (out ≡ lines path)

  run_parsed-path :
      (path : Bytes)
      → path ≢ []
      → run_parsed quote fs validate (value (path, []))
        ≡ validate_resource_mappings quote fs validate path
  run_parsed-path path full = ground arith

  run_parsed-ne-nil :
      (path : Bytes) (out : List Bytes)
      → run_parsed quote fs validate (value (path, [])) ≡ (out, none)
      → path ≢ []
  run_parsed-ne-nil path out h empty = let k = ap (λ x. x.1) h in ground arith

  run_parsed-Validates :
      (parsed : Fallible (Bytes × List Bytes)) (out : List Bytes)
      → run_parsed quote fs validate parsed ≡ (out, none)
      → Validates parsed out
  run_parsed-Validates (failed e) out h = absurd (let k = ap (λ x. x.1) h in cc)
  run_parsed-Validates (value (path, a ∷ args)) out h = absurd (let k = ap (λ x. x.1) h in cc)
  run_parsed-Validates (value (path, [])) out h =
      let full = run_parsed-ne-nil path out h in
      let (fine, same) =
        (validate_resource_mappings-eq path out).0 (sym (run_parsed-path path full) ∙ h) in
      (path, refl, full, fine, same)

  -- The command, given arguments, returns nil exactly if they are a path and no more, the walk over
  -- the directory there meets no error, and every file that is YAML by its name is read, decoded and
  -- valid. What it has written by then is a line for each such file, in the order of the walk, and
  -- that the validation has passed.
  pub run-Validates :
      (parse : List Bytes → Fallible (Bytes × List Bytes)) (args out : List Bytes)
      → (run quote fs validate parse args ≡ (out, none)) ↔ Validates (parse args) out
  unfolding run
  run-Validates parse args out = (
    run_parsed-Validates (parse args) out,
    λ (path, same, full, fine, written).
        ap (run_parsed quote fs validate) same
        ∙ run_parsed-path path full
        ∙ (validate_resource_mappings-eq path out).1 (fine, written),
  )
