-- ===== src/Tests.antt =====
-- The theorems at concrete inputs, and runs of the definitions.
mod Samples
mod Findings
mod Audits
mod Analyses
mod Inventories
mod Repositories
mod Calls
mod Scans
mod Documents
mod Commands
mod Benchmarks
