-- ===== src/Wal.antt =====
-- The write-ahead log (src/wal.cpp). `Format` has the records, `Scan` the passes that recovery and
-- trimming make over a file, `State` the class with its buffer and counters. The other modules
-- hold the proofs.
pub mod Format
pub mod Scan
pub mod State
pub mod Records
pub mod Replay
pub mod Passes
pub mod Recovery
pub mod Torn
pub mod Durability
pub mod Counters
pub mod Trim
pub mod TrimCheckpoint
