-- ===== src/Cfgsync.antt =====
-- internal/cfgsync: the central configuration document, how a watcher applies it and how it is
-- published.
pub mod Document
pub mod Registry
pub mod Watcher
pub mod ChangeStream
pub mod Publish
pub mod Config
mod Tests
