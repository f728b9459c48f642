-- ===== src/Tailer.antt =====
-- internal/source/tailer: which files a tailer follows, and the lines that it reads from them.
pub mod Segment
pub mod Glob
pub mod Followed
pub mod Lines
pub mod Poll
pub mod Paths
pub mod Discover
pub mod Hybrid
pub mod Events
pub mod Settings
mod Tests
