-- ===== src/Schema.antt =====
-- crates/tethys-schema: the wire types that the components share.
pub mod Thread
pub mod Sync
pub mod Projection
pub mod Skills
pub mod Connection
pub mod Meta
mod Examples
