-- ===== src/Tests.antt =====
-- A concrete platform, on which the theorems are applied.
mod Toy
mod ToyEcdsa
mod DidTests
mod FalconTests
mod ChainTests
mod RelayTests
mod ReportTests
mod PathTests
mod HardhatTests
mod NodeTests
mod ScalabilityTests
mod SecurityTests
mod BenchmarkTests
mod SummaryTests
