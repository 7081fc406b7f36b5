-- ===== src/Tests.antt =====
-- Tests and examples.
mod Fixtures
mod Records
mod Blocks
mod Execute
mod Handshake
mod Forged
mod Loops
mod Requests
mod Duplicate
mod Phases
mod Tree
mod Broadcast
mod Texts
mod Start
mod Gob
mod Workload
mod Disk
mod Keys
mod Replication
mod Clients
mod Senders
mod Views
