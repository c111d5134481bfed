-- ===== src/Base/Text.antt =====
-- Go strings and `[]byte`: lists of bytes. A literal of the source is written `codes "…"`.
use Prim.Native.Nat.{ℕ}
use Prim.Native.Char.{code}
use Prim.Native.String.{String}
use mathlib.Core.List.{List, [], ◌∷◌}
use native.Mathlib.Decide.{ℕ_discrete}
use pmap.Base.Tests.{Eq}

abbrev pub Bytes : Type 0
Bytes = List ℕ

-- The code points of a text, which are its bytes when the text is ASCII.
abbrev pub codes : String → Bytes
codes String.[] = []
codes (String.◌∷◌ c s) = code c ∷ codes s

Bytes-discrete : Discrete Bytes
unfolding ℕ_discrete
Bytes-discrete = hlevel ℕ_discrete

instance unfoldable pub bytes_eq : Eq Bytes
unfolding Bytes-discrete
bytes_eq = record { dec = Bytes-discrete }
