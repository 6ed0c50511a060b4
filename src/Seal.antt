-- ===== src/Seal.antt =====
-- src/zaynor/authority_seal.py: the canonical form of an authoritative result, and its seal.
pub mod Values
pub mod Sealing
pub mod Rearranged
pub mod Same
pub mod Faithful
pub mod Binding
pub mod Examples
