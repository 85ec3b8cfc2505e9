-- ===== src/Programs.antt =====
-- src/bin: the command line client and the start of the server.
pub mod Cli
pub mod Startup
pub mod Gossip
