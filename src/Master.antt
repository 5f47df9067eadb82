-- ===== src/Master.antt =====
-- The master program (master.go): the nodes that it has started and the commands that it reads.
pub mod State
pub mod Waiting
pub mod Nodes
pub mod Links
pub mod Launch
pub mod Requests
pub mod Commands
pub mod Progress
pub mod Rule
pub mod Ports
pub mod Addresses
pub mod Script
