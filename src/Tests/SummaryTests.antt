-- ===== src/Tests/SummaryTests.antt =====
-- The theorems on the printed summary of the benchmark, at concrete inputs.
use post_quantum_iot_auth.Prelude.{
  arith, ℕ, ◌*◌, ◌≡◌, some, List, [], ◌∷◌, Text, codes, All, length,
}
use post_quantum_iot_auth.Python.{ok}
use post_quantum_iot_auth.Python.Loops.{Returns}
use post_quantum_iot_auth.Falcon.{Backend}
use post_quantum_iot_auth.Benchmark.Run.{BenchmarkResult, run_full_benchmark_suite}
use post_quantum_iot_auth.Benchmark.Summary.{Key, Figures, print_summary}
use post_quantum_iot_auth.Benchmark.Summary.Order.{find, Ascending}
use post_quantum_iot_auth.Benchmark.Summary.Grouped.{times_of, listed, Shows}
use post_quantum_iot_auth.Benchmark.Summary.Printed.{IsStrict, Prints, print_summary_lem}
use post_quantum_iot_auth.Benchmark.Summary.Counted.{times_asked, operations, suite-print_summary}
use post_quantum_iot_auth.Tests.Toy.{toy, toy_libraries, simulated}
use post_quantum_iot_auth.Tests.ToyEcdsa.{toy_ecdsa, toy_dilithium, toy_profiler, toy_host}
use post_quantum_iot_auth.Tests.BenchmarkTests.{both, both-IsSupported}
use post_quantum_iot_auth.Tests.ScalabilityTests.{statistics, statistics-IsRanking}

abbrev timed : Text → Text → ℕ → BenchmarkResult toy
timed scheme operation time_ns = record {
  scheme = scheme;
  operation = operation;
  time_ns = time_ns;
  memory_kb = 0;
  message_size = 16;
  key_size = 64;
  signature_size = 72;
  iteration = 0;
  backend = Backend.simulation;
  environment = codes "iot";
}

abbrev measured : List (BenchmarkResult toy)
measured =
    timed (codes "ECDSA") (codes "sign") 3000000
    ∷ timed (codes "ECDSA") (codes "keygen") 9000000
    ∷ timed (codes "ECDSA") (codes "sign") 2000000
    ∷ []

toy-IsStrict : IsStrict toy
toy-IsStrict = record { irreflexive = λ x. ground arith; transitive = λ x y z h h'. ground arith }

print_summary_lem_example :
    (rows : List (Key × Figures toy)) × (print_summary toy statistics (λ ts. 0) measured ≡ ok rows)
    × Ascending rows
    × ((k : Key) → Prints toy statistics (λ ts. 0) (times_of toy k measured) (find k rows))
print_summary_lem_example =
    print_summary_lem toy statistics (λ ts. 0) toy-IsStrict statistics-IsRanking measured

suite-print_summary_example :
    Returns
      (run_full_benchmark_suite toy toy_libraries simulated toy_ecdsa toy_dilithium toy_profiler
        toy_host
        (some both)
        2
        16
        7)
      (λ rs _.
        (rows : List (Key × Figures toy)) × (print_summary toy statistics (λ ts. 0) rs ≡ ok rows)
        × Ascending rows
        × ((k : Key)
            → Shows toy statistics
                (λ ts. 0)
                statistics-IsRanking
                (listed toy (times_of toy k rs))
                (find k rows))
        × ((s : Text)
            → All (λ op. length (times_of toy (s, op) rs) ≡ times_asked s both * 2) operations))
suite-print_summary_example =
    suite-print_summary toy toy_libraries simulated toy_ecdsa toy_dilithium toy_profiler toy_host
      statistics (λ ts. 0) statistics-IsRanking (some both) 2 16 7 both-IsSupported
