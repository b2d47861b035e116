-- ===== src/Scripts.antt =====
-- scripts: the tools around the program, as far as they judge its results.
pub mod Benchmark
