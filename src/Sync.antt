-- ===== src/Sync.antt =====
-- crates/tethys-sync/src: the registry of MCP servers, and what a session gets of it.
pub mod Error
pub mod Document
pub mod Files
pub mod Projectors
pub mod Projection
pub mod Registry
pub mod Trust
pub mod Import
pub mod SkillImport
pub mod Skills
pub mod Manifest
pub mod Session
pub mod Attachments
mod Examples
