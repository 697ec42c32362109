-- ===== src/Controller.antt =====
-- Package controller.
pub mod Flow
pub mod Paging
pub mod Account
pub mod SupplierChannel
pub mod SupplierPlatform
pub mod Admin
pub mod Tests
