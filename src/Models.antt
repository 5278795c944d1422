-- ===== src/Models.antt =====
-- The data of the control plane (apps/api/app/models.py).
mod Status
mod Values
mod Rows
mod Database
pub use Status.*
unfoldable pub use Values.*
pub use Rows.*
pub use Database.*
