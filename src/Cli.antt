-- ===== src/Cli.antt =====
-- The command line (cmd/inferbolt) and its client (internal/cli).
pub mod Client
pub mod Follow
pub mod Resume
pub mod Wrap
pub mod Bootstrap
pub mod Stack
pub mod Credentials
pub mod Compare
pub mod Table
pub mod PollJob
pub mod Reports
