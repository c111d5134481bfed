-- ===== src/Cli.antt =====
-- pkg/cli
pub mod Root
pub mod Validate
pub mod Start
pub mod Server
pub mod Texts
