-- ===== src/Cli/Validate/Accepted.antt =====
-- Which files are validated, and what the command reports of them.
use mathlib.Core.List.{append-nil, append_assoc}
use pmap.Base.{
  ◌≡◌, ◌↔◌, refl, sym, ◌∙◌, ap, Option, none, some, List, [], ◌∷◌, ◌++◌, map, Bytes, codes, arith,
  if◌then◌else◌, All, ◌⊎◌, inl, inr,
}
use pmap.Errors.{Err}
use pmap.Errors.Leaves.{leaves, leaves-none}
use pmap.Errors.Fallible.{Fallible, value, failed, or_wrap}
use pmap.Api.Validation.{join_found}
use pmap.Api.Validation.Faults.{join_found-none_iff, leaves-join_found}
use pmap.Cli.Validate.{
  Visit, FileSystem, is_yaml, collect, fetch_extracted_yaml_files, check_mapping, check_content,
  check_file, check_files, processing, passed, check_fetched, validate_resource_mappings,
}

-- The files of a walk that are YAML by their names, in the order of the walk.
abbrev pub yaml_files : List Visit → List Bytes
yaml_files [] = []
yaml_files (v ∷ vs) =
    if v.is_dir
    then yaml_files vs
    else if is_yaml v.path
    then v.path ∷ yaml_files vs
    else yaml_files vs

-- The file is read and decoded, and what it holds is valid.
abbrev pub Good : {M : Type 0} → FileSystem M → (M → Option Err) → Bytes → Type 0
Good {M} fs validate file =
    (b : Bytes) × (m : M) × (fs.read_file file ≡ value b)
    × (fs.from_yaml b ≡ value m)
    × (validate m ≡ none)

module _ (quote : Bytes → Bytes) where
  collect-yaml_files :
      (vs : List Visit) (files : List Bytes)
      → All (λ v. v.failure ≡ none) vs
      → collect quote vs files ≡ value (files ++ yaml_files vs)
  unfolding collect
  collect-yaml_files [] files h = rw append-nil
  collect-yaml_files (v ∷ vs) files (fine, h) = ground (
    arith,
    collect-yaml_files vs files h,
    collect-yaml_files vs (files ++ v.path ∷ []) h,
    append_assoc files (v.path ∷ []) (yaml_files vs),
  )

  collect-next :
      (v : Visit) (vs : List Visit) (files : List Bytes) {l : List Bytes}
      → collect quote (v ∷ vs) files ≡ value l
      → (v.failure ≡ none)
        × ((collect quote vs (files ++ v.path ∷ []) ≡ value l) ⊎ (collect quote vs files ≡ value l))
  unfolding collect
  collect-next v vs files h = ground arith

  collect-walked :
      (vs : List Visit) (files : List Bytes) {l : List Bytes}
      → collect quote vs files ≡ value l
      → All (λ v. v.failure ≡ none) vs
  collect-walked [] files h = tt
  collect-walked (v ∷ vs) files h =
      let (fine, next) = collect-next v vs files h in
      (
        fine,
        elim next [
          | inl taken ↦ collect-walked vs (files ++ v.path ∷ []) taken
          | inr left ↦ collect-walked vs files left
        ],
      )

  module _ {M : Type 0} (fs : FileSystem M) (validate : M → Option Err) (dir : Bytes) where
    check_files_lines :
        (files out : List Bytes) (errs : Option Err)
        → (check_files quote fs validate dir files out errs).0
          ≡ out ++ map (processing quote fs validate dir) files
    unfolding check_files
    check_files_lines [] out errs = rw append-nil
    check_files_lines (f ∷ files) out errs = check_files_lines files _ _ ∙ append_assoc out _ _

    check_files-none_iff :
        (files out : List Bytes) (errs : Option Err)
        → ((check_files quote fs validate dir files out errs).1 ≡ none)
          ↔ ((errs ≡ none) × All (λ f. check_file quote fs validate dir f ≡ none) files)
    unfolding check_files
    check_files-none_iff [] out errs = (λ h. (h, tt), λ h. h.0)
    check_files-none_iff (f ∷ files) out errs =
        let (to, from) =
          check_files-none_iff files _ (join_found errs (check_file quote fs validate dir f)) in
        let (split, both) = join_found-none_iff errs (check_file quote fs validate dir f) in
        (
          λ h. ((split (to h).0).0, ((split (to h).0).1, (to h).1)),
          λ (none_yet, (good, rest)). from (both (none_yet, good), rest),
        )

    passed-none_iff :
        (r : List Bytes × Option Err) → ((passed quote fs validate r).1 ≡ none) ↔ (r.1 ≡ none)
    passed-none_iff (out, none) = (λ _. refl, λ _. refl)
    passed-none_iff (out, some e) = (λ h. absurd (cc), λ h. absurd (cc))

    validate_walked :
        All (λ v. v.failure ≡ none) (fs.walk_dir dir)
        → ((validate_resource_mappings quote fs validate dir).1 ≡ none)
          ↔ All (λ f. check_file quote fs validate dir f ≡ none) (yaml_files (fs.walk_dir dir))
    unfolding validate_resource_mappings fetch_extracted_yaml_files
    validate_walked walked =
        let files = yaml_files (fs.walk_dir dir) in
        let (to, from) = check_files-none_iff files [] none in
        let (all, pass) = passed-none_iff (check_files quote fs validate dir files [] none) in
        rw (collect-yaml_files (fs.walk_dir dir) [] walked)
          (λ h. (to (all h)).1, λ h. pass (from (refl, h)))

    check_fetched-none :
        (r : Fallible (List Bytes)) (text : Bytes)
        → (check_fetched quote fs validate dir (or_wrap r text)).1 ≡ none
        → (l : List Bytes) × (r ≡ value l)
    check_fetched-none (value l) text h = (l, refl)
    check_fetched-none (failed e) text h = absurd (cc)

    check_mapping-none_iff :
        (origin : Bytes) (r : Fallible M)
        → (check_mapping quote fs validate origin r ≡ none)
          ↔ ((m : M) × (r ≡ value m) × (validate m ≡ none))
    check_mapping-none_iff origin (value m) =
        (λ h. (m, refl, ground arith), λ (m', same, valid). ground arith)
    check_mapping-none_iff origin (failed e) = (λ h. absurd (cc), λ (m, bad, _). absurd (cc))

    check_content-none_iff :
        (origin : Bytes) (r : Fallible Bytes)
        → (check_content quote fs validate origin r ≡ none) ↔ (
            (b : Bytes) × (m : M) × (r ≡ value b)
            × (fs.from_yaml b ≡ value m)
            × (validate m ≡ none))
    check_content-none_iff origin (value b) =
        let (to, from) = check_mapping-none_iff origin (fs.from_yaml b) in
        (
          λ h. let (m, decoded, valid) = to h in (b, m, refl, decoded, valid),
          λ (b', m, same, decoded, valid).
              let one : b ≡ b' = cc in from (m, ap fs.from_yaml one ∙ decoded, valid),
        )
    check_content-none_iff origin (failed e) = (λ h. absurd (cc), λ (b, m, bad, _, _). absurd (cc))

    -- A file gives no error exactly if it is read and decoded, and what it holds is valid.
    pub check_file-none_iff :
        (file : Bytes) → (check_file quote fs validate dir file ≡ none) ↔ Good fs validate file
    unfolding check_file
    check_file-none_iff file = check_content-none_iff _ (fs.read_file file)

    files-Good :
        (files : List Bytes)
        → All (λ f. check_file quote fs validate dir f ≡ none) files ↔ All (Good fs validate) files
    files-Good [] = (λ _. tt, λ _. tt)
    files-Good (f ∷ files) =
        let (to, from) = check_file-none_iff f in
        let (tos, froms) = files-Good files in
        (λ (h, hs). (to h, tos hs), λ (h, hs). (from h, froms hs))

    -- The check of a directory succeeds exactly if the walk meets no error and every file that is
    -- YAML by its name is read, decoded and valid; other files and directories do not matter.
    pub validate_resource_mappings-none_iff :
        ((validate_resource_mappings quote fs validate dir).1 ≡ none) ↔ (
          All (λ v. v.failure ≡ none) (fs.walk_dir dir)
          × All (Good fs validate) (yaml_files (fs.walk_dir dir)))
    unfolding validate_resource_mappings fetch_extracted_yaml_files
    validate_resource_mappings-none_iff = (
      λ h.
          let (l, found) = check_fetched-none (collect quote (fs.walk_dir dir) []) _ h in
          let walked = collect-walked (fs.walk_dir dir) [] found in
          (walked, (files-Good (yaml_files (fs.walk_dir dir))).0 ((validate_walked walked).0 h)),
      λ (walked, fine).
          (validate_walked walked).1 ((files-Good (yaml_files (fs.walk_dir dir))).1 fine),
    )

    -- The reports of the files that are refused, in order.
    unfoldable pub reports : List Bytes → List Bytes
    reports [] = []
    reports (f ∷ files) = leaves (check_file quote fs validate dir f) ++ reports files

    check_files-leaves :
        (files out : List Bytes) (errs : Option Err)
        → leaves (check_files quote fs validate dir files out errs).1 ≡ leaves errs ++ reports files
    unfolding check_files reports
    check_files-leaves [] out errs = rw append-nil
    check_files-leaves (f ∷ files) out errs =
        check_files-leaves files _ _ ∙ rw (leaves-join_found, append_assoc)

    -- The last line, when there is no error.
    abbrev pub closing : Option Err → List Bytes
    closing none = codes "Validation passed" ∷ []
    closing (some e) = []

    passed_lem :
        (r : List Bytes × Option Err)
        → ((passed quote fs validate r).0 ≡ r.0 ++ closing r.1)
          × ((passed quote fs validate r).1 ≡ r.1)
    passed_lem (out, none) = (refl, refl)
    passed_lem (out, some e) = (rw append-nil, refl)

    -- If the walk meets no error, every file that is YAML by its name is announced, in the order of
    -- the walk, the error reports each file that is refused, in the same order, and the closing line
    -- stands exactly where there is no error.
    pub validate_resource_mappings_report :
        All (λ v. v.failure ≡ none) (fs.walk_dir dir)
        → let out = validate_resource_mappings quote fs validate dir in
          let files = yaml_files (fs.walk_dir dir) in
          (out.0 ≡ map (processing quote fs validate dir) files ++ closing out.1)
          × (leaves out.1 ≡ reports files)
    unfolding validate_resource_mappings fetch_extracted_yaml_files
    validate_resource_mappings_report walked =
        let files = yaml_files (fs.walk_dir dir) in
        let r = check_files quote fs validate dir files [] none in
        let (lines, same) = passed_lem r in
        rw (collect-yaml_files (fs.walk_dir dir) [] walked) (
          lines
              ∙ ap (λ l. l ++ closing r.1) (check_files_lines files [] none)
              ∙ ap (λ e. map (processing quote fs validate dir) files ++ closing e) (sym same),
          ap leaves same ∙ check_files-leaves files [] none ∙ rw leaves-none,
        )
