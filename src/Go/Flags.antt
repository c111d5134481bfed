-- ===== src/Go/Flags.antt =====
-- The flags that code adds to a `cli.FlagSet`: sections of string flags, each with the variable that
-- it is bound to. `C` is what holds the variables.
use pmap.Base.{List, [], ◌∷◌, Bytes}

-- `cli.StringVar`
pub record StringVar (C : Type 0) : Type 0 where
  pub name : Bytes
  -- `Target`: what an assignment through the pointer does
  pub target : Bytes → C → C
  pub env_var : Bytes
  pub default : Bytes
  pub example : Bytes
  pub usage : Bytes

-- `NewSection` of a flag set, and the calls of `StringVar` on it.
pub record Section (C : Type 0) : Type 0 where
  pub title : Bytes
  pub vars : List (StringVar C)

-- The assignments to the variables, one flag after the other, where `value` is what the parser of
-- the flags gives for a name, an environment variable and a default.
abbrev pub assign_vars : {C : Type 0} → (Bytes → Bytes → Bytes → Bytes) → List (StringVar C) → C → C
assign_vars value [] c = c
assign_vars value (f ∷ fs) c = assign_vars value fs (f.target (value f.name f.env_var f.default) c)

abbrev pub assign : {C : Type 0} → (Bytes → Bytes → Bytes → Bytes) → List (Section C) → C → C
assign value [] c = c
assign value (s ∷ ss) c = assign value ss (assign_vars value s.vars c)
