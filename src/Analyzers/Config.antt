-- ===== src/Analyzers/Config.antt =====
-- src/quantumguard/analyzers/config.py: findings from JSON, TOML and simple YAML.
pub mod Names
pub mod Pairs
pub mod Analysis
pub mod Classified
pub mod Fresh
pub mod Traced
