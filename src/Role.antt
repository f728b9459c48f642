-- ===== src/Role.antt =====
-- internal/role: the daemon with its gate and its watchdog, and the HTTP face of the gateway.
pub mod Daemon
pub mod Gateway
pub mod Cli
pub mod Api
pub mod Settings
mod Tests
