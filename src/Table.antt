-- ===== src/Table.antt =====
-- The table files (src/sstable.cpp, include/kvdb/block.hpp).
pub mod Stream
pub mod Builder
pub mod Write
pub mod Read
pub mod Chunks
pub mod Pieces
pub mod Written
pub mod Writes
pub mod RoundTrip
pub mod Block
pub mod Metadata
pub mod Lookup
pub mod Scan
pub mod Parse
pub mod Open
pub mod Target
pub mod Locate
pub mod Fetch
pub mod Found
pub mod LookupWrite
pub mod Reads
pub mod Flush
pub mod Flushed
pub mod Flushes
pub mod FlushWrite
pub mod Merge
pub mod Merged
pub mod Drained
pub mod Visible
pub mod Batches
