-- ===== src/Api.antt =====
-- The API types: pkg/apis/sources/v1alpha1.
pub mod Registration
pub mod Types
pub mod Cells
pub mod DeepCopy
pub mod Defaults
pub mod Validation
pub mod Lifecycle
