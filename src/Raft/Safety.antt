-- ===== src/Raft/Safety.antt =====
-- What the operations of a node keep.
pub mod Steady
pub mod Evolve
pub mod Campaign
pub mod Handlers
pub mod Runs
pub mod Tally
pub mod Elected
