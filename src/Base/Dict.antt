-- ===== src/Base/Dict.antt =====
-- Go maps with string keys, as association lists. Proofs go by the laws below.
use pmap.Base.{◌≡◌, refl, Option, none, some, List, [], ◌∷◌, arith, Bytes, bytes_eq}
use pmap.Base.{◌==◌, if◌then◌else◌}

abbrev pub Dict {ℓ} : Type ℓ → Type ℓ
Dict V = List (Bytes × V)

module _ {ℓ} {V : Type ℓ} where
  -- `v, found := m[k]`
  unfoldable pub lookup : Bytes → Dict V → Option V
  lookup k [] = none
  lookup k ((j, v) ∷ d) = if k == j then some v else lookup k d

  -- `m[k] = v`
  unfoldable pub insert : Bytes → V → Dict V → Dict V
  insert k v [] = (k, v) ∷ []
  insert k v ((j, w) ∷ d) = if k == j then (k, v) ∷ d else (j, w) ∷ insert k v d

  -- A Go map holds a key once.
  abbrev pub NodupKeys : Dict V → Type ℓ
  NodupKeys [] = Unit
  NodupKeys ((k, _) ∷ d) = (lookup k d ≡ none) × NodupKeys d

  pub lookup-cons :
      (j k : Bytes) (v : V) (d : Dict V)
      → lookup j ((k, v) ∷ d) ≡ (if j == k then some v else lookup j d)
  unfolding lookup
  lookup-cons j k v d = refl

  pub lookup-insert :
      (j k : Bytes) (v : V) (d : Dict V)
      → lookup j (insert k v d) ≡ (if j == k then some v else lookup j d)
  unfolding insert lookup
  lookup-insert j k v [] = refl
  lookup-insert j k v (_ ∷ d) = ground (arith, lookup-insert j k v d)

  pub insert-NodupKeys : (k : Bytes) (v : V) (d : Dict V) → NodupKeys d → NodupKeys (insert k v d)
  unfolding insert lookup
  insert-NodupKeys k v [] _ = (refl, tt)
  insert-NodupKeys k v ((j, _) ∷ d) (fresh, u) =
      ground (arith, insert-NodupKeys k v d u, lookup-insert j k v d)
