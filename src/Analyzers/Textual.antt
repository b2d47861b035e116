-- ===== src/Analyzers/Textual.antt =====
-- src/quantumguard/analyzers/textual.py: findings from the lines of languages other than Python.
pub mod Patterns
pub mod Analysis
pub mod Fresh
pub mod Tokens
pub mod Lines
