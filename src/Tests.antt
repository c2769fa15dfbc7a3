-- ===== src/Tests.antt =====
-- Runs at concrete inputs, and the theorems with hypotheses at inputs that meet them.
mod Fixtures
mod Agents
mod Admission
mod Storage
mod Registry
mod Guard
mod Frozen
mod Issue
mod Managed
mod Runtime
