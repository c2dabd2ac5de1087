-- ===== src/Tree.antt =====
-- The tree of a memtable (include/kvdb/bptree.hpp): `Keys` has the order of keys, `Leaf` the leaf pages
-- and `Split` their split. The other modules hold the proofs.
pub mod Keys
pub mod Leaf
pub mod Search
pub mod Lookup
pub mod Insertion
pub mod Split
pub mod Halves
pub mod Separated
