-- ===== src/Replication.antt =====
-- A request from `makeReq` into a block, and a backup from the blocks that it receives to its
-- database: `duplicate`, `Sending`, `Receiving`, `execute` and
-- `ExecTxSet` together (zpbft/server.go, zpbft/ycsb.go).
pub mod Received
pub mod Executed
pub mod Proposed
