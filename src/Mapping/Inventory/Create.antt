-- ===== src/Mapping/Inventory/Create.antt =====
-- `NewAssetInventoryProcessor` of pkg/mapping/processors/assetinventory.go, and its options.
use pmap.Base.{Option, none, some, List, [], ◌∷◌, Bytes, codes}
use pmap.Errors.{Result, ok, panicked, ◌>>=◌, or_wrap}
use pmap.Mapping.Inventory.{AssetClient, AssetInventoryProcessor}

-- The processor while its options run: its client is nil.
pub record Draft (Time Policy : Type 0) : Type 0 where
  pub default_resource_scope : Bytes
  pub client : Option (AssetClient Time Policy)

-- `Option`: it returns a processor, which may be nil, or an error.
pub record ProcessorOption (Time Policy : Type 0) : Type 0 where
  pub apply : Option (Draft Time Policy) → Result (Option (Draft Time Policy))

module _ {Time Policy : Type 0} where
  -- The loop over the options.
  unfoldable pub apply_options :
      List (ProcessorOption Time Policy)
      → Option (Draft Time Policy)
      → Result (Option (Draft Time Policy))
  apply_options [] p = ok p
  apply_options (opt ∷ opts) p = do
    q ← or_wrap (opt.apply p) (codes "failed to apply client options: ")
    apply_options opts q

  -- `p.client = client`, which panics if `p` is nil.
  abbrev pub set_client :
      AssetClient Time Policy
      → Option (Draft Time Policy)
      → Result (AssetInventoryProcessor Time Policy)
  set_client client none = panicked
  set_client client (some p) =
      ok (record { default_resource_scope = p.default_resource_scope; client = client })

  -- `NewAssetInventoryProcessor`
  unfoldable pub new_asset_inventory_processor :
      AssetClient Time Policy
      → Bytes
      → List (ProcessorOption Time Policy)
      → Result (AssetInventoryProcessor Time Policy)
  unfolding apply_options
  new_asset_inventory_processor client scope opts = do
    p ← apply_options opts (some (record { default_resource_scope = scope; client = none }))
    set_client client p
