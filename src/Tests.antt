-- ===== src/Tests.antt =====
-- Runs of the modelled code on small inputs, and the theorems at inputs that meet their hypotheses.
mod Views
mod History
mod Sinks
mod Streams
mod Registry
mod Merges
mod Sandbox
mod Scripting
mod Turns
mod Team
mod Turn
mod Client
mod Validators
mod Columns
mod Traces
mod Access
mod Maintenance
