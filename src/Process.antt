-- ===== src/Process.antt =====
-- internal/process: the rules for one line, and the strategies that batch and write the outcomes.
pub mod Core
pub mod Uploads
pub mod Batch
pub mod Single
pub mod Pipeline
pub mod Mode
pub mod Kept
mod Tests
