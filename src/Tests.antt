-- ===== src/Tests.antt =====
-- Runs of the program on concrete inputs.
pub mod Models
pub mod Protocol
pub mod Daemon
pub mod Packets
pub mod States
pub mod Captured
pub mod Manager
pub mod Edges
pub mod Start
pub mod Machine
pub mod Wire
pub mod Sender
