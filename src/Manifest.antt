-- ===== src/Manifest.antt =====
-- internal/manifest: which table files are live.
pub mod Edit
pub mod Version
pub mod VersionSet
mod Tests
