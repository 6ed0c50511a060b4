-- ===== src/AuditLog.antt =====
-- src/zaynor/audit_log.py: the append-only, hash-chained audit log. `Defs` holds the data on disk,
-- the object and its methods; the children prove what they are named for.
pub mod Defs
pub mod Verify
pub mod Appending
pub mod Session
pub mod Passed
pub mod RoundTrip
pub mod Tamper
mod Examples
pub mod Keys
pub mod Truncation
