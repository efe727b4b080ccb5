-- ===== src/Cli.antt =====
-- crates/eoip-cli: the commands that are typed and the requests they become.
pub mod Words
pub mod Tokens
pub mod Parse
pub mod Commands
