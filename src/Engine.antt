-- ===== src/Engine.antt =====
-- The writes, batches and lookups of the engine (src/engine.cpp): `State` has what the operations
-- change, `Writes` the ordinary writes, `Batch` the batches, `Lookup` the lookups. The other modules
-- hold the proofs.
pub mod State
pub mod Writes
pub mod Batch
pub mod Clock
pub mod Steps
pub mod Stamps
pub mod Batches
pub mod Lookup
pub mod Reads
pub mod Newest
pub mod Deleted
pub mod Moves
