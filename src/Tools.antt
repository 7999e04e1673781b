-- ===== src/Tools.antt =====
-- The maintenance scripts of the repository whose decisions are modelled: Revert is scripts/auto_revert.py,
-- Scope is scripts/scope_e2e.py.
pub mod Revert
pub mod Once
pub mod Scope
pub mod Chosen
