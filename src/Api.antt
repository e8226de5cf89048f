-- ===== src/Api.antt =====
-- api/v1alpha1: the resource types, one child module to a file of the package.
mod Meta
mod Types
mod Set
mod Deployment
mod Slice
pub mod Rules
pub use Meta.*
pub use Types.*
pub use Set.*
pub use Deployment.*
pub use Slice.*
