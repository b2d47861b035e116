-- ===== src/Reporting.antt =====
-- src/quantumguard/reporting.py: the documents made of an audit.
pub mod Inventory
pub mod Sarif
pub mod Cyclonedx
