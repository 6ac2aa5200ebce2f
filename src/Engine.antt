-- ===== src/Engine.antt =====
-- The scan engine (aegorx/engine.py): the data of a scan, the thresholds and the verdict.
--
-- `Engine` holds what a scan reads of `ScanEngine` and never writes; `ScanCache` is what it writes.
-- `World` is what the engine calls: the file system, the hashes, YARA, the ML model and the document
-- and archive analysers, as they answer during one scan. A probability is a double in [0, 1], kept
-- as its multiple of 2 ^ -1074, which is exact, so its comparisons are those of the numbers.
pub mod World
pub mod Sniff
pub mod Cache
pub mod Scan
pub mod Descriptor
pub mod Verdicts
pub mod Caching
pub mod Handles
pub mod Depth
pub mod Nested
mod Tests
