-- ===== src/Tests/ReportTests.antt =====
-- The theorems on the texts that the code reports, at concrete inputs.
use post_quantum_iot_auth.Prelude.{
  ℕ, ◌≡◌, refl, true, false, some, none, inl, [], ◌∷◌, arith, Text, codes, map, ◌<◌,
}
use post_quantum_iot_auth.Python.{ok, raised, value_error}
use post_quantum_iot_auth.Python.Text.{decimal}
use post_quantum_iot_auth.Python.Lines.{split, all_lack, all_lack-Lacks}
use post_quantum_iot_auth.Platform.{Platform}
use post_quantum_iot_auth.Scalability.Report.{ScalabilityResult}
use post_quantum_iot_auth.Scalability.Table.{to_dict, keys, csv_text}
use post_quantum_iot_auth.Scalability.Csv
use post_quantum_iot_auth.Scalability.Csv.{fields, decimal-Lacks, csv_text_reads_back}
use post_quantum_iot_auth.Scalability.Suite.{run_scalability_suite}
use post_quantum_iot_auth.Scalability.Empty.{run_scalability_suite_raises}
use post_quantum_iot_auth.Tests.FalconTests.{get_simulation}
use post_quantum_iot_auth.Tests.ScalabilityTests.{
  statistics, statistics-IsRanking, in_turn, in_turn-IsFair,
}
use post_quantum_iot_auth.Tests.Toy.{
  toy, toy-IsDocumented, toy_libraries, toy-IsEd25519, simulated, toy_web3,
}

-- a platform that prints a float like an integer
abbrev printing : Platform
printing = record toy { show_float = decimal }

abbrev result : ScalabilityResult printing
result = record {
  device_count = 50;
  transactions_per_device = 5;
  total_transactions = 249;
  total_time_ms = 1200;
  throughput_tps = 207;
  avg_latency_ms = 4;
  p50_latency_ms = 3;
  p99_latency_ms = 9;
  total_gas = 204569187;
  avg_gas_per_tx = 821563;
  failed_transactions = 1;
  concurrent_threads = 10;
  backend = codes "hardhat";
  gateway_verify_tps = 800;
  gateway_avg_latency_ms = 1;
  gateway_p99_latency_ms = 2;
  blockchain_submit_tps = 300;
  blockchain_avg_latency_ms = 3;
  blockchain_p99_latency_ms = 7;
}

plain :
    (c : ℕ)
    → c < 48
    → all_lack c (codes "hardhat" ∷ []) ≡ true
    → Csv.IsPlain printing c (result ∷ result ∷ [])
plain c h e =
    let (name, _) = all_lack-Lacks c (codes "hardhat" ∷ []) e in
    record { below = h; floats = λ x. decimal-Lacks printing c x h; names = (name, (name, tt)) }

csv_text_reads_back_example :
    (t : Text) × (csv_text printing (result ∷ result ∷ []) ≡ ok (some t))
    × (map (split 44) (split 10 t)
        ≡ keys printing (to_dict printing result)
          ∷ map (λ q. fields printing (to_dict printing q)) (result ∷ result ∷ []))
csv_text_reads_back_example =
    csv_text_reads_back printing result (result ∷ []) (plain 44 (omega arith) refl)
      (plain 10 (omega arith) refl)

run_scalability_suite_raises_example :
    (run_scalability_suite toy toy_libraries simulated toy_web3 statistics in_turn 1 none false
      (some (2 ∷ 0 ∷ 3 ∷ []))
      7).0
    ≡ raised value_error
run_scalability_suite_raises_example =
    run_scalability_suite_raises toy toy_web3 toy_libraries simulated statistics
      statistics-IsRanking toy-IsDocumented toy-IsEd25519 get_simulation in_turn 1 none
      in_turn-IsFair (2 ∷ []) (3 ∷ []) 7 (inl refl) (omega arith, tt)
