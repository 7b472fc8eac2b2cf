-- ===== src/Raft.antt =====
-- internal/raft: the consensus core.
pub mod Types
pub mod Log
pub mod Node
pub mod Conf
pub mod Quorum
pub mod Replicate
pub mod Commitment
pub mod Reads
pub mod Elect
pub mod Step
pub mod Drain
pub mod Start
pub mod Storage
pub mod Safety
mod Tests
