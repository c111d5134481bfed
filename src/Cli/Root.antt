-- ===== src/Cli/Root.antt =====
-- The command tree of pkg/cli/root.go, and cmd/pmap/main.go.
pub mod Dispatch
pub mod Validating
use pmap.Base.{ℕ, Option, none, some, List, [], ◌∷◌, ◌++◌, Bytes, codes}
use pmap.Errors.{Err, message}
use pmap.Version.{BuildInfo, human_version}

-- The commands that do something.
pub data Leaf : Type 0 where
  mapping_server : Leaf
  mapping_validate : Leaf
  policy_server : Leaf

mutual
  pub data Command : Type 0 where
    -- `cli.RootCommand`: its name, its version, its description and its commands
    root_command : Bytes → Bytes → Bytes → Commands → Command
    leaf : Leaf → Command

  -- `map[string]cli.CommandFactory`
  pub data Commands : Type 0 where
    no_more : Commands
    command : Bytes → Command → Commands → Commands

-- `rootCmd`
unfoldable pub root_cmd : BuildInfo → Command
unfolding human_version
root_cmd info = root_command (codes "pmap") (human_version info) [] (
    command (codes "mapping")
      (root_command (codes "mapping") []
        (codes "Perform operations related to the resource mapping")
        (command (codes "server") (leaf mapping_server)
          (command (codes "validate") (leaf mapping_validate) no_more)))
      (command (codes "policy")
        (root_command (codes "policy") [] (codes "Perform operations related to the policies")
          (command (codes "server") (leaf policy_server) no_more))
        no_more))

-- The exit status, and what is written to standard error.
abbrev pub exit_with : {W : Type 0} → Option Err × W → (ℕ × Bytes) × W
exit_with (none, w) = ((0, []), w)
exit_with (some e, w) = ((1, message e ++ b'\n' ∷ []), w)

-- `run_command` is `Run` of a command.
module _ {W : Type 0} (info : BuildInfo)
    (run_command : Command → List Bytes → W → Option Err × W) where
  -- `Run`, and `realMain` of cmd/pmap/main.go
  unfoldable pub run : List Bytes → W → Option Err × W
  run args w = run_command (root_cmd info) args w

  -- `main`
  unfoldable pub main : List Bytes → W → (ℕ × Bytes) × W
  main args w = exit_with (run args w)
