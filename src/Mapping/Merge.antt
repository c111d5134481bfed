-- ===== src/Mapping/Merge.antt =====
-- `mergeAnnotations` of pkg/mapping/processors/assetinventory.go.
use mathlib.Core.Option.{or_else}
use pmap.Base.{◌≡◌, refl, Option, [], ◌∷◌, Bytes, codes, arith, bytes_eq}
use pmap.Base.Dict.{Dict, lookup, insert, NodupKeys, lookup-insert}
use pmap.Errors.Fallible.{Fallible, or_wrap}
use pmap.Api.{Structs}

module _ {V : Type 0} where
  -- `for k, v := range fields { merged[k] = v }`
  unfoldable pub copy_into : Dict V → Dict V → Dict V
  copy_into merged [] = merged
  copy_into merged ((k, v) ∷ fields) = copy_into (insert k v merged) fields

  unfoldable pub merge_fields : Dict V → Dict V → Dict V
  unfolding copy_into
  merge_fields fields1 fields2 = copy_into (copy_into [] fields1) fields2

  lookup-copy_into :
      (merged fields : Dict V)
      → NodupKeys fields
      → (k : Bytes)
      → lookup k (copy_into merged fields) ≡ or_else (lookup k fields) (lookup k merged)
  unfolding copy_into or_else lookup
  lookup-copy_into merged [] u k = refl
  lookup-copy_into merged ((j, v) ∷ fields) (fresh, u) k =
      ground (arith, lookup-copy_into (insert j v merged) fields u k, lookup-insert k j v merged)

  -- A merged map holds what the second map holds at a key, or else what the first one does.
  pub lookup-merge_fields :
      (fields1 fields2 : Dict V)
      → NodupKeys fields1
      → NodupKeys fields2
      → (k : Bytes)
      → lookup k (merge_fields fields1 fields2) ≡ or_else (lookup k fields2) (lookup k fields1)
  unfolding merge_fields or_else lookup
  lookup-merge_fields fields1 fields2 u1 u2 k = ground (
    arith,
    lookup-copy_into (copy_into [] fields1) fields2 u2 k,
    lookup-copy_into [] fields1 u1 k,
  )

module _ {S Value : Type 0} (structs : Structs S Value) where
  -- `mergeAnnotations`
  unfoldable pub merge_annotations : Option S → Option S → Fallible S
  unfolding merge_fields
  merge_annotations annos1 annos2 =
      or_wrap (structs.new_struct (merge_fields (structs.as_map annos1) (structs.as_map annos2)))
        (codes "failed to construct a Struct from a merged Go map: ")
