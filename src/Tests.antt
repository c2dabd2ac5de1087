-- ===== src/Tests.antt =====
-- Runs at concrete inputs, and the theorems at inputs that meet their hypotheses.
mod Wal
mod Manifest
mod Tree
mod Engine
mod Snapshots
mod Bloom
mod Table
mod Protocol
mod Scan
mod Reads
mod Cache
