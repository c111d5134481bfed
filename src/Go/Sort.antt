-- ===== src/Go/Sort.antt =====
-- Go's `sort.Strings`. Texts are ordered byte by byte. Any sort gives the same list of texts, and
-- the model sorts by insertion.
pub mod Laws
pub mod Ordered
use pmap.Base.{Bool, true, false, List, [], ◌∷◌, Bytes, ltb, ◌==◌, nat_eq, if◌then◌else◌}

-- `s <= t`
unfoldable pub le : Bytes → Bytes → Bool
le [] t = true
le (a ∷ s) [] = false
le (a ∷ s) (b ∷ t) = if ltb a b then true else if a == b then le s t else false

unfoldable pub place : Bytes → List Bytes → List Bytes
place s [] = s ∷ []
place s (t ∷ ts) = if le s t then s ∷ (t ∷ ts) else t ∷ place s ts

-- `sort.Strings(l)`
unfoldable pub sort : List Bytes → List Bytes
unfolding place
sort [] = []
sort (s ∷ l) = place s (sort l)
