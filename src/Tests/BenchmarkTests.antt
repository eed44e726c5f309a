-- ===== src/Tests/BenchmarkTests.antt =====
-- The theorems on the benchmark, at concrete inputs.
use post_quantum_iot_auth.Prelude.{
  ◌≡◌, refl, none, some, List, [], ◌∷◌, ◌++◌, Bytes, Text, codes, length, map, All, beq, true,
}
use post_quantum_iot_auth.Python.{ok, raised, value_error}
use post_quantum_iot_auth.Python.Loops.{Returns}
use post_quantum_iot_auth.Benchmark.Scheme.{scheme_sizes, new_scheme, keygen, sign, verify}
use post_quantum_iot_auth.Benchmark.RoundTrip.{
  ecdsa_scheme, IsEcdsaKey, ecdsa-Works, falcon_scheme, IsFalconKey, falcon-Works, verify-sign,
}
use post_quantum_iot_auth.Benchmark.Run.{run_benchmark, run_full_benchmark_suite}
use post_quantum_iot_auth.Benchmark.Results.{untimed, due, run_benchmark_lem}
use post_quantum_iot_auth.Benchmark.Suite.{
  IsSupported, due_all, run_full_benchmark_suite_lem, run_full_benchmark_suite_unsupported,
}
use post_quantum_iot_auth.Tests.Toy.{toy, toy-IsDocumented, toy_libraries, toy-IsEd25519, simulated}
use post_quantum_iot_auth.Tests.ToyEcdsa.{
  toy_ecdsa, toy-IsEcdsa, toy_dilithium, toy_profiler, toy_host,
}
use post_quantum_iot_auth.Tests.FalconTests.{get_simulation}

verify-sign_example :
    (pk sk s : Bytes) × ((keygen toy toy_libraries simulated toy_ecdsa toy_dilithium
        (codes "ECDSA")
        3).0
      ≡ ok (pk, sk))
    × ((sign toy toy_libraries simulated toy_ecdsa toy_dilithium
          (codes "ECDSA")
          (codes "hi")
          sk
          9).0
        ≡ ok s)
    × (verify toy toy_libraries simulated toy_ecdsa toy_dilithium (codes "ECDSA") (codes "hi") s pk
        ≡ ok true)
    × (scheme_sizes (codes "ECDSA") ≡ some (length pk, length s))
verify-sign_example =
    verify-sign toy toy_libraries simulated toy_ecdsa toy_dilithium toy-IsEcdsa (codes "hi") 3 9

run_benchmark_lem_example :
    Returns
      (run_benchmark toy toy_libraries simulated toy_ecdsa toy_dilithium toy_profiler toy_host
        (ecdsa_scheme toy toy_libraries simulated toy_ecdsa toy_dilithium toy-IsEcdsa)
        3
        16
        1
        7)
      (λ xs _.
        map (untimed toy) xs
        ≡ due toy toy_libraries simulated toy_ecdsa toy_dilithium toy_profiler toy_host
            (ecdsa_scheme toy toy_libraries simulated toy_ecdsa toy_dilithium toy-IsEcdsa)
            3
            16)
run_benchmark_lem_example =
    run_benchmark_lem toy toy_libraries simulated toy_ecdsa toy_dilithium toy_profiler toy_host
      (ecdsa_scheme toy toy_libraries simulated toy_ecdsa toy_dilithium toy-IsEcdsa)
      (IsEcdsaKey toy toy_libraries simulated toy_ecdsa toy_dilithium toy-IsEcdsa)
      (ecdsa-Works toy toy_libraries simulated toy_ecdsa toy_dilithium toy-IsEcdsa) 3 16 1 7

abbrev pub both : List Text
both = codes "Falcon-512" ∷ codes "ECDSA" ∷ []

pub both-IsSupported :
    All (IsSupported toy toy_libraries simulated toy_ecdsa toy_dilithium toy_profiler toy_host) both
unfolding new_scheme scheme_sizes beq
both-IsSupported = (
  (
    falcon_scheme toy toy_libraries simulated toy_ecdsa toy_dilithium toy-IsDocumented
        toy-IsEd25519,
    refl,
    IsFalconKey toy toy_libraries simulated toy_ecdsa toy_dilithium toy-IsDocumented toy-IsEd25519,
    falcon-Works toy toy_libraries simulated toy_ecdsa toy_dilithium toy-IsDocumented toy-IsEd25519
        get_simulation,
  ),
  (
    (
      ecdsa_scheme toy toy_libraries simulated toy_ecdsa toy_dilithium toy-IsEcdsa,
      refl,
      IsEcdsaKey toy toy_libraries simulated toy_ecdsa toy_dilithium toy-IsEcdsa,
      ecdsa-Works toy toy_libraries simulated toy_ecdsa toy_dilithium toy-IsEcdsa,
    ),
    tt,
  ),
)

run_full_benchmark_suite_lem_example :
    Returns
      (run_full_benchmark_suite toy toy_libraries simulated toy_ecdsa toy_dilithium toy_profiler
        toy_host
        (some both)
        2
        16
        7)
      (λ xs _.
        map (untimed toy) xs
        ≡ due_all toy toy_libraries simulated toy_ecdsa toy_dilithium toy_profiler toy_host both 2
            16)
run_full_benchmark_suite_lem_example =
    run_full_benchmark_suite_lem toy toy_libraries simulated toy_ecdsa toy_dilithium toy_profiler
      toy_host (some both) 2 16 7 both-IsSupported

no_rsa : scheme_sizes (codes "RSA") ≡ none
unfolding scheme_sizes beq
no_rsa = refl

run_full_benchmark_suite_unsupported_example :
    (run_full_benchmark_suite toy toy_libraries simulated toy_ecdsa toy_dilithium toy_profiler
      toy_host
      (some (both ++ codes "RSA" ∷ []))
      2
      16
      7).0
    ≡ raised value_error
run_full_benchmark_suite_unsupported_example =
    run_full_benchmark_suite_unsupported toy toy_libraries simulated toy_ecdsa toy_dilithium
      toy_profiler toy_host both [] (codes "RSA") 2 16 7 both-IsSupported no_rsa
