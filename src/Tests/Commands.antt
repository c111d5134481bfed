-- ===== src/Tests/Commands.antt =====
-- The command tree, run by a small dispatcher, and the flags of the mapping server.
use pmap.Base.{
  ◌≡◌, ◌↔◌, refl, Option, none, some, List, [], ◌∷◌, ◌++◌, Bytes, codes, bytes_eq, nat_eq, ◌==◌, ap,
  inl, inr, Bool, Bool-cases, ◌⊎◌, if◌then◌else◌,
}
use pmap.Errors.{Err, plain, message}
use pmap.Errors.Fallible.{Fallible, value}
use pmap.Version.{BuildInfo, human_version}
use pmap.Cli.Root.{
  Leaf, mapping_validate, mapping_server, policy_server, Command, root_command, leaf, Commands,
  no_more, command, main,
}
use pmap.Cli.Root.Dispatch.{find, helped, DispatchLaws, main-status_iff}
use pmap.Cli.Root.Validating.{AsksForHelp, main-validate_iff}
use pmap.Cli.Validate.{run}
use pmap.Cli.Validate.Runs.{Validates}
use pmap.Tests.Cli.{quote, fs}

abbrev Leaves : Type 0
Leaves = Leaf → List Bytes → List Bytes → Option Err × List Bytes

-- The error that asks for help, and what is written then.
abbrev is_help : Err → Bool
is_help e = message e == codes "failed to parse flags: flag: help requested"

abbrev show_help : Leaf → List Bytes → List Bytes
show_help l w = w ++ (codes "Usage" ∷ [])

abbrev shown : Command → Option Err × List Bytes → Option Err × List Bytes
shown (leaf l) r = helped is_help show_help l r
shown (root_command n v d cs) r = r

unfoldable mutual
  run_tree : Leaves → Command → List Bytes → List Bytes → Option Err × List Bytes
  run_tree run_leaf (leaf l) args w = run_leaf l args w
  run_tree run_leaf (root_command n v d cs) [] w = (none, w)
  run_tree run_leaf (root_command n v d cs) (arg ∷ args) w = run_in run_leaf cs arg args w

  run_in : Leaves → Commands → Bytes → List Bytes → List Bytes → Option Err × List Bytes
  run_in run_leaf no_more arg args w = (some (plain (codes "unknown command")), w)
  run_in run_leaf (command n c cs) arg args w =
      let here = shown c (run_tree run_leaf c args w) in
      let rest = run_in run_leaf cs arg args w in if arg == n then here else rest

module _ (run_leaf : Leaves) where
  run_in-eq :
      (cs : Commands) (arg : Bytes) (args w : List Bytes) {found : Command}
      → find arg cs ≡ some found
      → run_in run_leaf cs arg args w ≡ shown found (run_tree run_leaf found args w)
  unfolding run_in
  run_in-eq no_more arg args w h = absurd (cc)
  run_in-eq (command n c cs) arg args w {found} h = elim (Bool-cases (arg == n)) [
    | inl here ↦
        let same : c ≡ found = let k = rw here at h in cc in
        rw here (ap (λ c'. shown c' (run_tree run_leaf c' args w)) same)
    | inr other ↦ rw other (run_in-eq cs arg args w (rw other at h))
  ]

  dispatch_laws : DispatchLaws (run_tree run_leaf) run_leaf is_help show_help
  unfolding run_tree
  dispatch_laws = record {
    run-root_command = λ n v d arg n' v' d' cs inner args w h. (n', run_in-eq cs arg args w h);
    run-leaf = λ n v d arg cs l args w h. run_in-eq cs arg args w h;
  }

-- The one argument is the path.
abbrev parse_path : List Bytes → Fallible (Bytes × List Bytes)
parse_path [] = value ([], [])
parse_path (path ∷ args) = value (path, args)

abbrev accepts_all : Bytes → Option Err
accepts_all m = none

-- The command that validates, over a directory of three files; a server leaves its arguments.
abbrev run_leaf : Leaves
run_leaf mapping_validate args w = (
  (run quote fs accepts_all parse_path args).1,
  w ++ (run quote fs accepts_all parse_path args).0,
)
run_leaf mapping_server args w = (none, w ++ args)
run_leaf policy_server args w = (none, w ++ args)

abbrev info : BuildInfo
info = record { version = codes "1.2"; commit = codes "abc"; os_arch = codes "linux/amd64" }

version_text : human_version info ≡ codes "pmap 1.2 (abc, linux/amd64)"
unfolding human_version
version_text = refl

-- The words of a command start it with the arguments behind them.
server_run :
    main info (run_tree run_leaf) (codes "policy" ∷ codes "server" ∷ codes "-port=1" ∷ []) []
    ≡ ((0, []), codes "-port=1" ∷ [])
server_run =
    (main-status_iff info (run_tree run_leaf) run_leaf is_help show_help (dispatch_laws run_leaf)
        policy_server (codes "-port=1" ∷ []) [] (codes "-port=1" ∷ [])).1
      (inl refl)

abbrev written : List Bytes
written =
    codes "processing file a.yaml" ∷ codes "processing file c.yml" ∷ codes "Validation passed" ∷ []

main-validate_iff_example :
    (main info (run_tree run_leaf) (codes "mapping" ∷ codes "validate" ∷ codes "d" ∷ []) []
      ≡ ((0, []), written))
    ↔ (((out : List Bytes) × Validates quote fs accepts_all (value (codes "d", [])) out
          × (written ≡ out))
        ⊎ AsksForHelp is_help show_help quote fs accepts_all parse_path (codes "d" ∷ []) [] written)
main-validate_iff_example =
    main-validate_iff info (run_tree run_leaf) run_leaf is_help show_help (dispatch_laws run_leaf)
      quote fs accepts_all parse_path (λ args w. refl) (codes "d" ∷ []) [] written

-- Every flag has its own name as its value, but for the scope.
abbrev pub flag_value : Bytes → Bytes → Bytes → Bytes
flag_value name env_var default =
    if name == codes "default-resource-scope" then codes "folders/7" else name
