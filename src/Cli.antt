-- ===== src/Cli.antt =====
-- internal/cli: the command line client.
pub mod Kinds
pub mod Output
pub mod Describe
pub mod Tables
pub mod Commands
pub mod Url
pub mod Get
