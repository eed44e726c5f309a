-- ===== src/Tests/ScalabilityTests.antt =====
-- The theorem on the scalability runner, at a concrete input.
use post_quantum_iot_auth.Prelude.{
  true, List, ℕ, zero, suc, ◌<◌, Option, some, none, ◌≤◌, ◌⊎◌, min, ◌/◌, ◌+◌, ◌*◌, ◌≡◌, refl, false,
  [], ◌∷◌, arith, All, codes, map,
}
use mathlib.Core.List.Permᴰ
use post_quantum_iot_auth.Gateway.{new_gateway}
use post_quantum_iot_auth.Runner.Relayed.{IsSimulated-Signs}
use post_quantum_iot_auth.Python.Text.{encode, hex, decimal}
use post_quantum_iot_auth.Falcon.{falcon_sign, falcon_verify}
use post_quantum_iot_auth.Falcon.Simulation.{
  to_bytes, simulation_sign, simulation_verify, deterministic_pad, pad_loop,
}
use post_quantum_iot_auth.Device.{generate_sensor_data, sign_data}
use post_quantum_iot_auth.Gateway.{relay_data}
use post_quantum_iot_auth.Scalability.{
  Worker, new_worker, verify_round, turn, turn_of, run_schedule, suite_threads, thread_count,
}
use post_quantum_iot_auth.Scalability.Report.{Statistics}
use post_quantum_iot_auth.Python.Loops.{Returns}
use post_quantum_iot_auth.Chain.{new_blockchain}
use post_quantum_iot_auth.RelayNode.{new_relay}
use post_quantum_iot_auth.Scalability.Run.{run_phases}
use post_quantum_iot_auth.Scalability.Simulated.{simulated_submissions}
use post_quantum_iot_auth.Scalability.Charged.{run_phases_lem}
use post_quantum_iot_auth.Scalability.Finished.{IsFair}
use post_quantum_iot_auth.Scalability.Suite.{Timing, run_scalability_suite}
use post_quantum_iot_auth.Scalability.Suites.{
  Each, IsSimulatedRun, IsSuiteRun, run_scalability_suite_lem, run_scalability_suite_real,
}
use post_quantum_iot_auth.Tests.HardhatTests.{toy_web3-IsMining, toy_web3-IsDeploying}
use post_quantum_iot_auth.Scalability.Fairness.{count}
use post_quantum_iot_auth.Scalability.Threads.{suite_threads_lem}
use post_quantum_iot_auth.Scalability.Phases.{IsRanking}
use post_quantum_iot_auth.Tests.FalconTests.{get_simulation}
use post_quantum_iot_auth.Tests.RelayTests.{device, carried}
use post_quantum_iot_auth.Tests.Toy.{
  toy, toy-IsDocumented, toy_libraries, toy-IsEd25519, simulated, toy_web3,
}

abbrev pub statistics : Statistics toy
statistics = record { mean = λ xs. 0; round = λ x n. x; sorted = λ xs. xs }

pub statistics-IsRanking : IsRanking toy statistics
statistics-IsRanking = record {
  sorted_size = λ xs. refl;
  half = λ n. omega arith;
  most = λ n. omega arith;
}

-- two devices, whose workers take turns
finished :
    All
      (λ (w : Worker toy). w.remaining ≡ 0)
      (run_schedule toy toy_libraries simulated 64
        (0 ∷ 1 ∷ 1 ∷ 0 ∷ [])
        (map (new_worker toy 2) (device ∷ device ∷ []))
        (new_gateway toy (codes "gw-scale"), 8)).0
unfolding new_gateway run_schedule turn_of turn verify_round new_worker generate_sensor_data
    sign_data falcon_sign simulation_sign deterministic_pad pad_loop relay_data falcon_verify
    simulation_verify encode hex decimal to_bytes
finished = (refl, (refl, tt))

run_phases_lem_example :
    Returns
      (run_phases toy statistics
        (simulated_submissions toy)
        toy_libraries
        simulated
        (codes "simulated")
        64
        2
        3
        (device ∷ device ∷ [])
        (0 ∷ 1 ∷ 1 ∷ 0 ∷ [])
        (λ ws. ws)
        (new_relay toy (codes "r") (new_blockchain toy 42), 7))
      (λ r _.
        (r.total_transactions + r.failed_transactions ≡ 4)
        × (r.total_gas ≡ 821563 * r.total_transactions))
run_phases_lem_example =
    let signs =
      IsSimulated-Signs toy toy_libraries simulated toy-IsDocumented toy-IsEd25519 false device
        get_simulation (5, carried) in
    run_phases_lem toy statistics statistics-IsRanking toy_libraries simulated 64 2 3
      (device ∷ device ∷ []) (0 ∷ 1 ∷ 1 ∷ 0 ∷ []) (λ ws. ws)
      (new_relay toy (codes "r") (new_blockchain toy 42)) 7 (omega arith) (signs, (signs, tt))
      (λ ws. Permᴰ.refl ws) finished

-- The workers take one turn each, the last one first.
abbrev down : ℕ → List ℕ
down zero = []
down (suc n) = n ∷ down n

abbrev pub in_turn : ℕ → ℕ → Timing toy
in_turn k count = record { schedule = down count; order = λ ws. ws }

down_count : (k i : ℕ) → i < k → 1 ≤ count i (down k)
unfolding count
down_count zero i h = absurd (omega arith)
down_count (suc k) i h = ground (arith, down_count k i)

pub in_turn-IsFair : (i k : ℕ) → IsFair toy 1 k (in_turn i k)
in_turn-IsFair i k = record { enough = down_count k; reorders = λ ws. Permᴰ.refl ws }

abbrev two_and_three : Option (List ℕ)
two_and_three = some (2 ∷ 3 ∷ [])

run_scalability_suite_lem_example :
    Returns
      (run_scalability_suite toy toy_libraries simulated toy_web3 statistics in_turn 1 none false
        two_and_three 7)
      (λ rs _.
        Each (IsSimulatedRun toy toy_web3 toy_libraries simulated statistics 1) (2 ∷ 3 ∷ []) rs)
run_scalability_suite_lem_example =
    run_scalability_suite_lem toy toy_web3 toy_libraries simulated statistics statistics-IsRanking
      toy-IsDocumented toy-IsEd25519 get_simulation in_turn 1 none in_turn-IsFair two_and_three 7
      (omega arith, (omega arith, tt))

run_scalability_suite_real_example :
    Returns
      (run_scalability_suite toy toy_libraries simulated toy_web3 statistics in_turn 1 none true
        two_and_three 7)
      (λ rs _.
        Each
          (IsSuiteRun toy toy_web3 toy_libraries simulated statistics statistics-IsRanking
            toy-IsDocumented toy-IsEd25519 get_simulation in_turn 1 none in_turn-IsFair)
          (2 ∷ 3 ∷ [])
          rs)
run_scalability_suite_real_example =
    run_scalability_suite_real toy toy_web3 toy_libraries simulated statistics statistics-IsRanking
      toy-IsDocumented toy-IsEd25519 get_simulation in_turn 1 none in_turn-IsFair toy_web3-IsMining
      toy_web3-IsDeploying two_and_three 7 (omega arith, (omega arith, tt))

suite_threads_lem_example :
    (1 ≤ suite_threads (some 0) 7)
    × ((◌≡◌ {A = Option ℕ} (some 0) (some 0))
        ⊎ (suite_threads (some 0) 7 ≡ thread_count (some 0) 7))
    × (thread_count none 7 ≤ 7)
    × (min 7 4 ≤ thread_count none 7)
    × (7 / 5 ≤ thread_count none 7)
suite_threads_lem_example = suite_threads_lem (some 0) 7 (omega arith)
