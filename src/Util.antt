-- ===== src/Util.antt =====
-- src/quantumguard/util.py: names of severities and algorithms, the classification of paths, and
-- the walk that selects the files to scan.
pub mod Severities
pub mod Algorithms
pub mod Paths
pub mod Walk
