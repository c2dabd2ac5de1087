-- ===== src/Lib.antt =====
-- A model of the storage engine of keyvaluedb, an LSM tree, and what holds of it.
--
-- Parts. A write gets a timestamp from the engine's clock (src/engine.cpp), goes into the buffer of
-- the write-ahead log (src/wal.cpp), which a sync thread writes to its file, and then into the active
-- memtable (src/memtable.cpp), a B+ tree with copied leaf pages (include/kvdb/bptree.hpp). Full
-- memtables become table files, which the manifest (src/manifest.cpp) lists. A batch writes with one
-- timestamp ahead of the clock; an abort marks that timestamp in the log, the manifest, the memtables
-- and the tables. On opening, the manifest and the log are read back.
--
-- Files. A string is a list of bytes, a number of the source a natural number with its wrap-around
-- written out, `std::unordered_set<uint64_t>` a list without repetition, and an exception or an early
-- exit a `none` or a constructor of `Outcome`.
--   Prelude           tests, lists, options and sets that all parts share
--   Types             include/kvdb/types.hpp: KeyValuePair
--   Bytes             the little-endian fields of src/manifest.cpp and src/wal.cpp; Bytes/Fields their
--                     round trips
--   Crc32             include/kvdb/internal/crc32.hpp: the table, Update and Finalize
--   Wal/Format        SerializeRecord, WriteSentinelRecord and the records of the Buffer functions
--   Wal/Scan          the two loops of WAL::Recover over bytes
--   Wal/State         the class WAL: buffer, counters, Sync in its two critical sections, Recover, Clear
--   Wal/Trim          WAL::TrimToLastCheckpoint
--   Wal/Records, Wal/Replay, Wal/Passes, Wal/Recovery, Wal/Torn, Wal/Durability, Wal/Counters,
--   Wal/TrimCheckpoint   proofs on the log
--   Manifest/Format   the records of AddSSTable, RemoveSSTable and AddAbortBatch
--   Manifest/Catalog  Manifest::Recover and Manifest::Compact over bytes
--   Manifest/Records, Manifest/Loop, Manifest/Recovery, Manifest/Compaction   proofs on the manifest
--   Tree/Keys         std::string::compare
--   Tree/Leaf         BPlusTree::LeafPage: Find, InsertEntry, and Insert and Lookup in one page
--   Tree/Split        SplitCoW up to the two leaves and their separator, CopyEntry, FindChild
--   Tree/Search, Tree/Lookup, Tree/Insertion, Tree/Halves, Tree/Separated   proofs on the pages
--   MemTable          the class MemTable over an interface for its tree
--   Engine/State      what the write path of LSMTreeEngine changes, SyncWorkerLoop
--   Engine/Writes     Insert and Delete
--   Engine/Batch      StartBatch, CommitBatch, CommitBatchAsync, CommitBatchFinalize, AbortBatch,
--                     BatchInsert and BatchDelete
--   Engine/Clock      the clock's machine; Engine/Steps, Engine/Moves, Engine/Stamps, Engine/Batches   proofs
--                     on the clock and the batches
--   Engine/Lookup     LSMTreeEngine::Lookup; Engine/Reads, Engine/Newest,
--                     Engine/Deleted   proofs on what it finds
--   Snapshots         include/kvdb/snp_tracker.hpp: the tracker of active snapshots, and a proof
--   Bloom             include/kvdb/bloom.hpp; Bloom/Bits, Bloom/Laws   proofs on the filter
--   Table/Stream      reading from an istream; Table/Builder   BlockBuilder and WriteBlock
--   Table/Write       SSTable::Write; Table/Read   SSTable::ReadAll
--   Table/Flush       SSTable::WriteFromWalk
--   Table/Merge       the merge of SSTable::Compact; Table/Merged, Table/Drained,
--                     Table/Visible, Table/Batches   proofs on it
--   Table/Block       include/kvdb/block.hpp
--   Table/Metadata    SSTable::ReadMetadata; Table/Lookup   SSTable::LookupKey
--   Table/Chunks, Table/Pieces, Table/Written, Table/Writes, Table/RoundTrip   proofs on what Write
--                     writes and ReadAll reads
--   Table/Flushed, Table/Flushes, Table/FlushWrite   proofs on what WriteFromWalk writes
--   Table/Scan, Table/Parse, Table/Open, Table/Target, Table/Locate, Table/Fetch, Table/Found,
--   Table/LookupWrite, Table/Reads   proofs on what LookupKey finds
--   Protocol          src/protocol.cpp; Protocol/Wire   what is sent comes back
--   Scan              the class RangeIterator; Scan/Prefix   PrefixScan
--   Scan/Leaves       the sources of the memtables: the class MaterializedMemTableSource, and
--                     `materialize` in RangeScan
--   Scan/Stamps, Scan/Heap, Scan/Totals, Scan/Rounds, Scan/Newest, Scan/Seek, Scan/Range   proofs on
--                     what a scan gives
--   Scan/Readable, Scan/Sought, Scan/Copies, Scan/Memtables   proofs on what it reads of memtables
--   Cache             include/kvdb/kv_cache.hpp: the data and the loops; Cache/Shards   the calls on a
--                     shard; Cache/Calls   those of the class KVCache
--   Cache/Rooms, Cache/Probes, Cache/Endings, Cache/Runs   proofs on the cache
--   Tests             runs at concrete inputs
--
-- Fuel. Each loop over a file has the file's length as fuel and reads four bytes or more in a round,
-- so it ends by its own condition; the binary search has the page's count, which its interval does not
-- exceed. `ReadAll` has the number of rounds as fuel, of which the number of entries is enough, and
-- the search for a block the number of blocks. The loops of the protocol over send and recv have
-- the number of bytes as fuel. The merge has the number of rounds as fuel, which for one source is
-- its number of entries, and a scan the number of rounds of FindNext, of its sources and of its
-- caller, for which the number of entries is enough. A probe of the cache has the number of buckets.
-- `CommitBatch` waits for the sync thread along a list of that thread's rounds.
--
-- Bounds. Where a theorem needs fields to fit their widths, it says so in a hypothesis (`Fits`,
-- `FitsField`, `Fits64`). A probe of the cache takes the remainder by the number of buckets where the
-- code masks with it less one in 32 bits, which are the same up to 2^31 entries a shard, and a probe
-- that ends without a slot is a constructor of its own in place of 2^32 - 1. The cast of a length to
-- int before send is left to the hypothesis on send.
--
-- Not modelled. The internal nodes of the tree, its walks, version locks and the retiring of pages;
-- the output files of a merge, the iterators of table files, and the paths of table files through
-- the block cache; the block cache, the codec, server and client; the engine's flush and compaction
-- threads and its opening. The operations of the engine run one after another, and a lookup or a
-- scan without the snapshots that it holds. Files that fail to open are parameters of the log, and of
-- the manifest and the tables not modelled.
pub mod Prelude
pub mod Bytes
pub mod Crc32
pub mod Types
pub mod Wal
pub mod Manifest
pub mod Tree
pub mod MemTable
pub mod Engine
pub mod Snapshots
pub mod Table
pub mod Bloom
pub mod Protocol
pub mod Scan
pub mod Cache
mod Tests
