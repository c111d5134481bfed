-- ===== src/Api.antt =====
-- apis/v1alpha1: the messages of a resource mapping, and their validation.
pub mod Messages
pub mod Subscope
pub mod Validation
unfoldable pub use Messages.*
