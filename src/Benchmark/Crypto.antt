-- ===== src/Benchmark/Crypto.antt =====
-- What crypto_benchmark/benchmark.py takes from liboqs and pqcrypto for Dilithium, and from `time` and
-- `tracemalloc` for its measurements.
use post_quantum_iot_auth.Prelude.{ℕ, Bool, Bytes, Text}
use post_quantum_iot_auth.Python.{Result, Exec}
use post_quantum_iot_auth.Platform.{Platform}

-- A module of `pqcrypto.sign`; each call stands for the import and the call.
pub record MlDsa (P : Platform) : Type 0 where
  pub generate_keypair : Exec P.World (Bytes × Bytes)
  -- the secret key and the message
  pub sign : Bytes → Bytes → Exec P.World Bytes
  -- the public key, the message and the signature
  pub verify : Bytes → Bytes → Bytes → Result Bool

-- `oqs.Signature(name)`, from the import to the end of its `with` block.
pub record Dilithium (P : Platform) : Type 0 where
  pub ml_dsa_44 : MlDsa P
  pub ml_dsa_65 : MlDsa P
  pub oqs_keypair : Text → Exec P.World (Bytes × Bytes)
  -- the name, the secret key and the message
  pub oqs_sign : Text → Bytes → Bytes → Exec P.World Bytes
  -- the name, the message, the signature and the public key
  pub oqs_verify : Text → Bytes → Bytes → Bytes → Result Bool

pub record Profiler (P : Platform) : Type 0 where
  pub start : P.World → P.World
  pub stop : P.World → P.World
  -- `time.perf_counter_ns()`, and `tracemalloc.get_traced_memory()[1]`
  pub perf_counter_ns : P.World → ℕ × P.World
  pub peak : P.World → ℕ × P.World
