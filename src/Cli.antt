-- ===== src/Cli.antt =====
-- lantun-cli: the configuration file, and the commands that edit it.
pub mod Config
pub mod Sorting
pub mod Commands
pub mod Entries
pub mod Edits
pub mod Effects
pub mod Files
pub mod Failing
pub mod Starting
