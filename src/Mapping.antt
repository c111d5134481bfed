-- ===== src/Mapping.antt =====
-- pkg/mapping/processors/assetinventory.go
pub mod Scope
pub mod Merge
pub mod Inventory
