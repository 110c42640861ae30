-- ===== src/Raft.antt =====
-- internal/raft/node.go: the replicated state machine (`Machine`), the node (`Node`), and what a log of
-- proposed orders does (`Replication`) and a snapshot keeps (`Snapshots`).
pub mod Json
pub mod Machine
pub mod Node
pub mod Replication
pub mod Snapshots
