-- ===== src/Audit.antt =====
-- The audit log (aegorx/realtime/monitor.py, `AuditLog` and `verify_audit_log`): a chain of records over
-- an active file and its rotated segments.
--
-- A file is a list of lines; file 0 is the active one (`path`), file i its segment `path.i`. `Body` is what
-- a caller logs, and `digest` is SHA-256 over the canonical JSON of a body with its "seq" and "prev".
-- `bytes` is the size of a file. Sizes and digests are parameters; that they are the real ones is not used.
pub mod Segments
pub mod Rotation
pub mod Chain
pub mod Verified
pub mod Resumed
mod Tests
