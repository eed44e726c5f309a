-- ===== src/Benchmark.antt =====
-- crypto_benchmark/benchmark.py: Dilithium, the schemes and the benchmark.
pub mod Crypto
pub mod Dilithium
pub mod Scheme
pub mod RoundTrip
pub mod Environment
pub mod Run
pub mod Passes
pub mod Results
pub mod Suite
pub mod Summary
