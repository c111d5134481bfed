-- ===== src/Cli/Root/Dispatch.antt =====
-- Which command the arguments of the program start.
use pmap.Base.{
  ◌≡◌, ◌↔◌, refl, ◌∙◌, Option, none, some, List, [], ◌∷◌, ◌++◌, Bytes, codes, bytes_eq, nat_eq,
  ◌==◌, if◌then◌else◌, Bool, true, Bool-cases, ◌⊎◌, inl, inr, sym, ap,
}
use pmap.Errors.{Err}
use pmap.Version.{BuildInfo}
use pmap.Cli.Root.{
  Leaf, mapping_server, mapping_validate, policy_server, Command, root_command, leaf, Commands,
  no_more, command, root_cmd, exit_with, run, main,
}

abbrev pub find : Bytes → Commands → Option Command
find name no_more = none
find name (command n c cs) = if name == n then some c else find name cs

-- The words that name a command.
abbrev pub words : Leaf → List Bytes
words mapping_server = codes "mapping" ∷ codes "server" ∷ []
words mapping_validate = codes "mapping" ∷ codes "validate" ∷ []
words policy_server = codes "policy" ∷ codes "server" ∷ []

exit_with-success_iff :
    {W : Type 0} (r : Option Err × W) (v : W) → (exit_with r ≡ ((0, []), v)) ↔ (r ≡ (none, v))
exit_with-success_iff (none, w) v = (λ h. cc, λ h. cc)
exit_with-success_iff (some e, w) v = (λ h. absurd (cc), λ h. absurd (cc))

module _ {W : Type 0} (is_help : Err → Bool) (show_help : Leaf → W → W) where
  -- A command that asks for help by its error has its help shown, and no error.
  abbrev pub helped : Leaf → Option Err × W → Option Err × W
  helped l (none, w) = (none, w)
  helped l (some e, w) = if is_help e then (none, show_help l w) else (some e, w)

  -- The command ended without an error, or it asked for help.
  abbrev pub EndsWell : Leaf → Option Err × W → W → Type 0
  EndsWell l r v =
      (r ≡ (none, v))
      ⊎ ((e : Err) × (u : W) × (r ≡ (some e, u)) × (is_help e ≡ true) × (v ≡ show_help l u))

  helped_iff : (l : Leaf) (r : Option Err × W) (v : W) → (helped l r ≡ (none, v)) ↔ EndsWell l r v
  helped_iff l (none, w) v =
      (λ h. inl h, λ h. elim h [ inl fine ↦ fine | inr (e, u, bad, _, _) ↦ absurd (cc) ])
  helped_iff l (some e, w) v = elim (Bool-cases (is_help e)) [
    | inl asks ↦ rw asks (
      λ h. inr (e, w, refl, asks, sym (ap (λ x. x.1) h)),
      λ h. elim h [
        | inl bad ↦ absurd (cc)
        | inr (d, u, same, _, shown) ↦ let one : w ≡ u = ap (λ x. x.1) same in cc
      ],
    )
    | inr other ↦ rw other (
      λ h. absurd (cc),
      λ h. elim h [
        | inl bad ↦ absurd (cc)
        | inr (d, u, same, asks, _) ↦ let one : some e ≡ some d = ap (λ x. x.0) same in absurd (cc)
      ],
    )
  ]

-- What the `cli` library does in `RootCommand.Run`: the first argument names the command that is run
-- with the others. A command of commands gets a name that tells where it stands. `run_leaf` is `Run`
-- of the commands that do something, `is_help` is `errors.Is` with `flag.ErrHelp`, and `show_help` is
-- what the help of a command writes.
pub record DispatchLaws {W : Type 0} (run_command : Command → List Bytes → W → Option Err × W)
    (run_leaf : Leaf → List Bytes → W → Option Err × W) (is_help : Err → Bool)
    (show_help : Leaf → W → W) : Type 0 where
  pub run-root_command :
      (name version description arg n v d : Bytes) (cs inner : Commands) (args : List Bytes) (w : W)
      → find arg cs ≡ some (root_command n v d inner)
      → (called : Bytes) × (run_command (root_command name version description cs) (arg ∷ args) w
          ≡ run_command (root_command called v d inner) args w)
  pub run-leaf :
      (name version description arg : Bytes) (cs : Commands) (l : Leaf) (args : List Bytes) (w : W)
      → find arg cs ≡ some (leaf l)
      → run_command (root_command name version description cs) (arg ∷ args) w
        ≡ helped is_help show_help l (run_leaf l args w)

module _ {W : Type 0} (info : BuildInfo) (run_command : Command → List Bytes → W → Option Err × W)
    (run_leaf : Leaf → List Bytes → W → Option Err × W) (is_help : Err → Bool)
    (show_help : Leaf → W → W) (laws : DispatchLaws run_command run_leaf is_help show_help) where
  run-words :
      (l : Leaf) (args : List Bytes) (w : W)
      → run info run_command (words l ++ args) w ≡ helped is_help show_help l (run_leaf l args w)
  unfolding run root_cmd bytes_eq nat_eq
  run-words mapping_server args w =
      let (called, down) = laws.run-root_command _ _ _ (codes "mapping") _ _ _ _ _ _ w refl in
      down ∙ laws.run-leaf called _ _ (codes "server") _ mapping_server args w refl
  run-words mapping_validate args w =
      let (called, down) = laws.run-root_command _ _ _ (codes "mapping") _ _ _ _ _ _ w refl in
      down ∙ laws.run-leaf called _ _ (codes "validate") _ mapping_validate args w refl
  run-words policy_server args w =
      let (called, down) = laws.run-root_command _ _ _ (codes "policy") _ _ _ _ _ _ w refl in
      down ∙ laws.run-leaf called _ _ (codes "server") _ policy_server args w refl

  -- The program, given the words of a command and arguments, exits with status 0, and reports no
  -- error, exactly if the command with those arguments returns nil or asks for help.
  pub main-status_iff :
      (l : Leaf) (args : List Bytes) (w v : W)
      → (main info run_command (words l ++ args) w ≡ ((0, []), v))
        ↔ EndsWell is_help show_help l (run_leaf l args w) v
  unfolding main
  main-status_iff l args w v =
      let (to, from) = exit_with-success_iff (helped is_help show_help l (run_leaf l args w)) v in
      let (ends, back) = helped_iff is_help show_help l (run_leaf l args w) v in
      rw (run-words l args w) (λ h. ends (to h), λ h. from (back h))
