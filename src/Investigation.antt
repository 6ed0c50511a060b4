-- ===== src/Investigation.antt =====
-- src/zaynor/agents: the typed boundary of an investigation (investigation_contracts.py), the
-- agents' registry with the policy on their tools (contracts.py, registry.py, policy.py), and a
-- bounded turn (investigation_runner.py).
pub mod Values
pub mod Contracts
pub mod Proposal
pub mod Observation
pub mod Session
pub mod Ledger
pub mod Steps
pub mod Policy
pub mod Authority
pub mod RoundTrip
pub mod Envelope
pub mod Runner
pub mod Turn
pub mod Projection
pub mod Restored
pub mod Snapshot
pub mod Resumed
pub mod Facts
pub mod Bound
pub mod Examples
pub mod TurnExamples
pub mod BoundExamples
