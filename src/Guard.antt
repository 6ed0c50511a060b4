-- ===== src/Guard.antt =====
-- src/zaynor/agents/authority_guard.py: the check of the structured output of an agent against the
-- sealed result.
pub mod Result
pub mod Members
pub mod Sets
pub mod Checks
pub mod Shown
pub mod Presented
pub mod Examples
