-- ===== src/Tests/PathTests.antt =====
-- The theorems on the paths of the comparison on either blockchain, at concrete inputs.
use post_quantum_iot_auth.Prelude.{
  ℕ, zero, suc, ◌+◌, ◌*◌, ◌%◌, ◌<◌, ◌≡◌, refl, true, false, none, [], ◌∷◌, Bytes, All, arith,
  replicate,
}
use post_quantum_iot_auth.Python.Text.{IsByte}
use post_quantum_iot_auth.Python.Loops.{Returns}
use post_quantum_iot_auth.Hardhat.Client.{Web3}
use post_quantum_iot_auth.Runner.Relayed.{IsSimulated-Signs}
use post_quantum_iot_auth.Runner.Simulated.{run_relay_path as run_simulated_relay_path}
use post_quantum_iot_auth.Runner.Direct.{run_direct_path as run_simulated_direct_path}
use post_quantum_iot_auth.Runner.Paths.{of_simulated, run_direct_path, run_relay_path}
use post_quantum_iot_auth.Runner.OnHardhat.{
  IsReal, IsBalanced, relay_loops_on, run_relay_path-IsReal,
}
use post_quantum_iot_auth.Runner.Fallback.{paths_fall_back}
use post_quantum_iot_auth.Runner.Comparison.{create_and_compare}
use post_quantum_iot_auth.Runner.RealComparison.{IsRealRound, create_and_compare_real}
use post_quantum_iot_auth.Tests.FalconTests.{get_simulation}
use post_quantum_iot_auth.Tests.HardhatTests.{toy_web3-IsMining, toy_web3-IsDeploying}
use post_quantum_iot_auth.Tests.RelayTests.{device, carried, spread}
use post_quantum_iot_auth.Tests.Toy.{
  toy, checksum, toy-IsDocumented, toy_libraries, toy-IsEd25519, simulated, toy_web3,
}

checksum-IsByte : (acc : ℕ) (b : Bytes) → acc < 256 → checksum acc b < 256
checksum-IsByte acc [] h = h
checksum-IsByte acc (b ∷ bs) h = checksum-IsByte ((acc * 31 + b + 1) % 256) bs (omega arith)

replicate-IsByte : (n : ℕ) → All IsByte (replicate n 0)
replicate-IsByte zero = tt
replicate-IsByte (suc n) = (omega arith, replicate-IsByte n)

toy-IsByte : (b : Bytes) → All IsByte (toy.sha256 b)
toy-IsByte b = (checksum-IsByte 7 b (omega arith), replicate-IsByte 31)

run_relay_path-IsReal_example :
    Returns
      (run_relay_path toy toy_web3 toy_libraries simulated true 64 2 3 (device ∷ []) 7)
      (λ p _.
        IsBalanced toy toy_web3 true 3 p.report
        × IsReal toy toy_web3
            (relay_loops_on toy toy_web3 toy_libraries simulated 64 2 3 (device ∷ []))
            p.report.total_gas
            p.report.total_transactions
            p)
run_relay_path-IsReal_example =
    run_relay_path-IsReal toy toy_web3 toy_web3-IsMining toy_web3-IsDeploying toy_libraries
      simulated true 64 2 3 (device ∷ []) 7
      (
        IsSimulated-Signs toy toy_libraries simulated toy-IsDocumented toy-IsEd25519 true device
            get_simulation (5, carried),
        tt,
      )

create_and_compare_real_example :
    Returns
      (create_and_compare toy toy_web3 toy_libraries simulated spread true 64 2 3 4 5 7)
      (λ c _.
        IsRealRound toy toy_web3 toy_libraries simulated 64 2 3 5 (c.direct_ecdsa, c.relay_falcon))
create_and_compare_real_example =
    create_and_compare_real toy toy_web3 toy_libraries simulated toy_web3-IsMining
      toy_web3-IsDeploying toy-IsDocumented toy-IsByte toy-IsEd25519 get_simulation spread 64 2 3 4
      5 7

-- a node that cannot be reached
abbrev offline : Web3 toy
offline = record toy_web3 { is_connected = λ w. (false, w + 1) }

paths_fall_back_example :
    (run_direct_path toy offline true 64 3 (device ∷ []) 7
      ≡ of_simulated toy none (run_simulated_direct_path toy 64 3 (device ∷ []) 8))
    × (run_relay_path toy offline toy_libraries simulated true 64 2 3 (device ∷ []) 7
        ≡ of_simulated toy none
            (run_simulated_relay_path toy toy_libraries simulated 64 2 3 (device ∷ []) 8))
paths_fall_back_example =
    paths_fall_back toy offline toy_libraries simulated 64 2 3 (device ∷ []) 7 refl
