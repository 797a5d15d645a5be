-- ===== src/Consensus.antt =====
-- pkg/consensus/validator.go, by parts: the work of a block and the choice between two tips, the
-- checks of a header, the DAG caches and the proof of work, and the insertion of a block.
pub mod Work
pub mod Header
pub mod Accept
pub mod Cache
pub mod Insert
pub mod Validate
pub mod Setup
pub mod Answer
pub mod Invariant
pub mod Accepted
pub mod Seal
