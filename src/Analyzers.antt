-- ===== src/Analyzers.antt =====
-- src/quantumguard/analyzers: what reads files and makes findings.
pub mod Common
pub mod Config
pub mod Python
pub mod Textual
