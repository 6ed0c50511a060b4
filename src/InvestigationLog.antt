-- ===== src/InvestigationLog.antt =====
-- src/zaynor/investigation_log.py: the investigator's hypotheses and open questions, and the sealed
-- journal of every change to them.
pub mod Defs
pub mod Operations
pub mod Verify
pub mod Summary
pub mod Soundness
pub mod Latest
pub mod Minted
pub mod Preservation
pub mod History
pub mod Divergence
mod Examples
