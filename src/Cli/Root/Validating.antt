-- ===== src/Cli/Root/Validating.antt =====
-- The program of cmd/pmap/main.go with the arguments `mapping validate` and others.
use mathlib.Core.Path.{subst}
use pmap.Base.{
  refl, some, Bool, true, ◌⊎◌, inl, inr, ◌≡◌, ◌↔◌, sym, ◌∙◌, ap, Option, none, List, [], ◌∷◌, ◌++◌,
  Bytes, codes,
}
use pmap.Errors.{Err}
use pmap.Errors.Fallible.{Fallible}
use pmap.Version.{BuildInfo}
use pmap.Cli.Validate.{FileSystem, run}
use pmap.Cli.Validate.Runs.{Validates, run-Validates}
use pmap.Cli.Root.{Leaf, mapping_validate, Command, main}
use pmap.Cli.Root.Dispatch.{DispatchLaws, EndsWell, main-status_iff}

-- The world outside is what was written to standard output, in lines.
abbrev after : List Bytes → List Bytes × Option Err → Option Err × List Bytes
after w (out, e) = (e, w ++ out)

after-none_iff :
    (w v : List Bytes) (r : List Bytes × Option Err)
    → (after w r ≡ (none, v)) ↔ ((out : List Bytes) × (r ≡ (out, none)) × (v ≡ w ++ out))
after-none_iff w v (out, e) = (
  λ h. (out, ap (λ x. (out, x.0)) h, sym (ap (λ x. x.1) h)),
  λ (out', same, whole). ap (after w) same ∙ ap (λ x. (none, x)) (sym whole),
)

module _ {M : Type 0} (is_help : Err → Bool) (show_help : Leaf → List Bytes → List Bytes)
    (quote : Bytes → Bytes) (fs : FileSystem M) (validate : M → Option Err)
    (parse : List Bytes → Fallible (Bytes × List Bytes)) where
  -- The command returns an error that asks for help, and the help is shown.
  abbrev pub AsksForHelp : List Bytes → List Bytes → List Bytes → Type 0
  AsksForHelp args w v =
      (e : Err) × (out : List Bytes) × (run quote fs validate parse args ≡ (out, some e))
      × (is_help e ≡ true)
      × (v ≡ show_help mapping_validate (w ++ out))

module _ {M : Type 0} (info : BuildInfo)
    (run_command : Command → List Bytes → List Bytes → Option Err × List Bytes)
    (run_leaf : Leaf → List Bytes → List Bytes → Option Err × List Bytes) (is_help : Err → Bool)
    (show_help : Leaf → List Bytes → List Bytes)
    (laws : DispatchLaws run_command run_leaf is_help show_help) (quote : Bytes → Bytes)
    (fs : FileSystem M) (validate : M → Option Err)
    (parse : List Bytes → Fallible (Bytes × List Bytes))
    (validates : (args w : List Bytes)
      → run_leaf mapping_validate args w ≡ after w (run quote fs validate parse args)) where
  EndsWell-after_iff :
      (args w v : List Bytes) (r : List Bytes × Option Err)
      → run quote fs validate parse args ≡ r
      → EndsWell is_help show_help mapping_validate (after w r) v ↔ (
          ((out : List Bytes) × (r ≡ (out, none)) × (v ≡ w ++ out))
          ⊎ AsksForHelp is_help show_help quote fs validate parse args w v)
  EndsWell-after_iff args w v (out, e) same =
      let (ran, given) = after-none_iff w v (out, e) in
      (
        λ h. elim h [
          | inl fine ↦ inl (ran fine)
          | inr (d, u, failure, asks, shown) ↦
              let ends : e ≡ some d = ap (λ x. x.0) failure in
              let left : w ++ out ≡ u = ap (λ x. x.1) failure in
              inr (
                d,
                out,
                same ∙ ap (λ x. (out, x)) ends,
                asks,
                shown ∙ ap (show_help mapping_validate) (sym left),
              )
        ],
        λ h. elim h [
          | inl fine ↦ inl (given fine)
          | inr (d, out', failure, asks, shown) ↦
              let one = sym same ∙ failure in inr (d, w ++ out', ap (after w) one, asks, shown)
        ],
      )

  -- The program, given `mapping validate` and arguments, exits with status 0 and reports no error,
  -- exactly if the arguments are a path and no more, the walk over the directory there meets no
  -- error, and every file that is YAML by its name can be read, is decoded, and holds what is valid;
  -- by then it has written a line for each such file, in the order of the walk, and that the
  -- validation has passed. Or the error of the command asks for help, which is shown.
  pub main-validate_iff :
      (args w v : List Bytes)
      → (main info run_command (codes "mapping" ∷ codes "validate" ∷ args) w ≡ ((0, []), v)) ↔ (
          ((out : List Bytes) × Validates quote fs validate (parse args) out × (v ≡ w ++ out))
          ⊎ AsksForHelp is_help show_help quote fs validate parse args w v)
  main-validate_iff args w v =
      let (run_of, main_of) =
        main-status_iff info run_command run_leaf is_help show_help laws mapping_validate args w
          v in
      let (ends, well) = EndsWell-after_iff args w v (run quote fs validate parse args) refl in
      let same = validates args w in
      let Ends : Option Err × List Bytes → Type 0 =
        λ r. EndsWell is_help show_help mapping_validate r v in
      (
        λ h. elim (ends (subst Ends same (run_of h))) [
          | inl (out, ran, whole) ↦
              inl (out, (run-Validates quote fs validate parse args out).0 ran, whole)
          | inr asks ↦ inr asks
        ],
        λ h. main_of (
            subst Ends (sym same) (elim h [
              | inl (out, fine, whole) ↦
                  well (inl (out, (run-Validates quote fs validate parse args out).1 fine, whole))
              | inr asks ↦ well (inr asks)
            ])),
      )
