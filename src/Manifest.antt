-- ===== src/Manifest.antt =====
-- The manifest (src/manifest.cpp): the catalogue of table files, as a log of records. `Format` has the
-- records, `Catalog` the class with recovery and compaction. The other modules hold the proofs.
pub mod Format
pub mod Catalog
pub mod Records
pub mod Loop
pub mod Recovery
pub mod Compaction
