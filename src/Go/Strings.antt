-- ===== src/Go/Strings.antt =====
-- Go's `strings`: `HasPrefix`, `Split`, `Join`, `Cut`, `Contains` of a byte, and `TrimPrefix`.
pub mod Laws
pub mod Cut
pub mod Occurs
pub mod TwoParts
pub mod Joined
use pmap.Base.{
  ℕ, zero, suc, ◌-◌, Bool, true, false, ◌&&◌, ◌||◌, List, [], ◌∷◌, ◌++◌, Bytes, length, drop, ◌==◌,
  nat_eq, if◌then◌else◌,
}

-- `strings.HasPrefix(s, prefix)`
unfoldable pub has_prefix : Bytes → Bytes → Bool
has_prefix s [] = true
has_prefix [] (p ∷ ps) = false
has_prefix (c ∷ s) (p ∷ ps) = c == p && has_prefix s ps

-- The rest of `strings.Split`, from the part read so far. `skip` bytes of a separator are left out.
pub cut_at : Bytes → ℕ → Bytes → Bytes → List Bytes
cut_at sep skip cur [] = cur ∷ []
cut_at sep (suc skip) cur (c ∷ s) = cut_at sep skip cur s
cut_at sep zero cur (c ∷ s) = elim (has_prefix (c ∷ s) sep) [
  | true ↦ cur ∷ cut_at sep (length sep - 1) [] s
  | false ↦ cut_at sep zero (cur ++ c ∷ []) s
]

-- `strings.Split(s, sep)` for a separator that is not empty
unfoldable pub split : Bytes → Bytes → List Bytes
unfolding cut_at has_prefix
split s sep = cut_at sep zero [] s

-- `s[0]`; a split has at least one part.
abbrev pub first : List Bytes → Bytes
first [] = []
first (p ∷ ps) = p

-- `strings.Join(parts, sep)`
unfoldable pub join : List Bytes → Bytes → Bytes
join [] sep = []
join (p ∷ []) sep = p
join (p ∷ q ∷ ps) sep = p ++ (sep ++ join (q ∷ ps) sep)

-- `strings.Contains(s, b)` for one byte
unfoldable pub contains : Bytes → ℕ → Bool
contains [] b = false
contains (c ∷ s) b = c == b || contains s b

-- The two sides of `before, after, _ := strings.Cut(s, b)` for one byte
unfoldable pub cut_before : Bytes → ℕ → Bytes
cut_before [] b = []
cut_before (c ∷ s) b = let rest = c ∷ cut_before s b in if c == b then [] else rest

unfoldable pub cut_after : Bytes → ℕ → Bytes
cut_after [] b = []
cut_after (c ∷ s) b = let rest = cut_after s b in if c == b then s else rest

-- `strings.TrimPrefix(s, prefix)`
unfoldable pub trim_prefix : Bytes → Bytes → Bytes
unfolding has_prefix
trim_prefix s prefix = if has_prefix s prefix then drop (length prefix) s else s
