-- ===== src/Lib.antt =====
-- A model of the Python code of post-quantum-iot-auth: IoT devices sign readings with Falcon-512, a
-- gateway verifies them off the chain, and a relay node submits what verifies to a blockchain.
--
-- The parts and the files that model them:
--   shared/falcon_utils.py              Falcon (detection and dispatch of the backends),
--                                       Falcon/Simulation (the Ed25519 backend with padded sizes)
--   shared/did_utils.py                 Did
--   shared/config.py                    Config
--   relay_system/iot_client.py          Device (class IoTDevice), Chain (class SimulatedBlockchain)
--   relay_system/gateway.py             Gateway
--   relay_system/relay.py               RelayNode
--   relay_system/hardhat_backend.py     Hardhat, Hardhat/Decomposition (get_gas_decomposition)
--   relay_system/hardhat_runner.py      HardhatRunner, HardhatRunner/Node (the node's process)
--   relay_system/runner.py              Runner (the loops of the relay path, on any blockchain),
--                                       Runner/Direct (those of the direct path), Runner/Simulated
--                                       and Runner/Backend (what they call of each blockchain),
--                                       Runner/Paths (run_direct_path and run_relay_path),
--                                       Runner/Comparison (the devices and run_comparison)
--   scalability/scalability_runner.py   Scalability (the workers and the thread counts),
--                                       Scalability/Simulated and Scalability/Real (the second phase
--                                       on each blockchain), Scalability/Report (the metrics),
--                                       Scalability/Run (the phases), Scalability/Suite (run and
--                                       run_scalability_suite), Scalability/Table (to_dict, the CSV)
--   security/attack_simulation.py       Security (the results and checks), Security/Forgery,
--                                       Security/Replay, Security/Identity, Security/Relay (the tests),
--                                       Security/Suite (run_all_security_tests)
--   security/threat_model.py            Security/ThreatModel
--   crypto_benchmark/benchmark.py       Benchmark/Dilithium, Benchmark/Scheme (class CryptoScheme),
--                                       Benchmark/Environment (detect_environment), Benchmark/Run
--                                       (the measurements and the suite),
--                                       Benchmark/Summary (the printed table)
-- The files below those that model code hold the proofs, each named for what it is about; Tests has a
-- concrete platform on which the theorems are applied.
--
-- A class is a record of its attributes and a method a function with the method's name, without a
-- leading underscore. A method takes the object and the world (clock, random sources) and returns both
-- beside its result; where it may raise, the result is `ok` or `raised`, and what was written before
-- the exception stays written (Python). A runner's `for` loops are `for_each` and `repeat` of
-- Python/Loops. A `dict` is the sealed Dict, whose clients have only its laws.
--
-- Parameters: Platform (clock, uuid4, urandom, random.Random, SHA-256, floats), Falcon/Crypto
-- (liboqs, pqcrypto and the Ed25519 of `cryptography`), Ecdsa (the ECDSA of `cryptography`),
-- Benchmark/Crypto (liboqs and pqcrypto for Dilithium, tracemalloc), Benchmark/Environment (the files
-- of the machine), Statistics of Scalability/Report, Hardhat/Client (web3 and eth_account) and
-- HardhatRunner/Node (the process of a node); `Web3.keccak` is an argument of the security tests, and
-- `statistics.stdev` one of the benchmark's table. What is assumed of them is in IsDocumented (a
-- SHA-256 digest has 32 bytes, urandom(n) returns n) and IsEd25519 (key and signature sizes, keys are
-- read back, a signature verifies); where a theorem needs ECDSA as documented, a node that mines every
-- call or deploys contracts, or sorting and percentile ranks as documented, these are IsEcdsa of Ecdsa,
-- IsMining of Hardhat/Mining, IsDeploying of Runner/Setup and IsRanking of Scalability/Phases. Where a
-- theorem needs that a process can be ended, that is IsEnding of HardhatRunner/Node/Lifecycle; where it
-- needs that comparing floats is irreflexive and transitive, IsStrict of Benchmark/Summary/Printed.
-- Hash collisions are never excluded: where a theorem needs distinct hashes it says so. A node may give
-- two transactions the same hash, which the theorems on the gas of a real run state as a case.
--
-- Fuel: the loop of `_deterministic_pad` takes one more round than the bytes that are asked for; each
-- round but the last adds 32 bytes, so this is enough for every size up to 2 ^ 32
-- (Falcon/Padding), where Python's four-byte counter would overflow only later.
--
-- The worker threads of the scalability runner take turns, each one round of its loop, in the order of
-- a schedule that the theorems quantify over, and their futures complete in any order.
--
-- What the loops of runner.py call of a blockchain is a record, Batches of Runner and Blockchains of
-- Runner/Direct; the theorems on the loops take any ledger that the calls keep (Books of Runner/Books,
-- Records of Runner/Receipted), and so does the scalability runner (Submissions of Scalability, Charges
-- of Scalability/Phases); the simulated and the real blockchain each provide theirs.
--
-- Not modelled: JSON files, what is printed, the command lines, shared/visualization.py and the
-- scripts, which plot; the Solidity contracts, the Java simulation and the C benchmark, which are not
-- Python. Log messages are left out. `w3.is_connected()` and `w3.eth.accounts` answer and do not raise,
-- and texts have no lone surrogates, which `encode` would raise on; where a node has one account only,
-- HardhatBackend.deploy_contracts sets nothing before it raises.
-- The locks of the registry and of the Hardhat backend make each locked block one step.
pub mod Prelude
pub mod Python
pub mod Dict
pub mod Platform
pub mod Config
pub mod Did
pub mod Falcon
pub mod Device
pub mod Chain
pub mod Gateway
pub mod RelayNode
pub mod Hardhat
pub mod Runner
pub mod Tests
pub mod Benchmark
pub mod Ecdsa
pub mod HardhatRunner
pub mod Scalability
pub mod Security
