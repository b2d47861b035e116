-- ===== src/Analyzers/Python.antt =====
-- src/quantumguard/analyzers/python.py: what the analyzer of Python reads off a syntax tree, and how it
-- classifies calls and assignments.
pub mod Syntax
pub mod Calls
pub mod Protocols
pub mod Outcomes
pub mod Assignments
pub mod Tree
pub mod Analysis
pub mod Seen
pub mod Traced
