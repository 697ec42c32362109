-- ===== src/Model.antt =====
-- The data model and its database operations: package model.
pub mod Schema
pub mod World
pub mod Channel
pub mod Platform
pub mod Grant
pub mod User
pub mod Audit
pub mod Invariant
pub mod Tests
