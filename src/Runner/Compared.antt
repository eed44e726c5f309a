-- ===== src/Runner/Compared.antt =====
-- A comparison of relay_system/runner.py in the simulation backend, from the creation of the devices
-- on: both paths submit every reading.
use post_quantum_iot_auth.Prelude.{false, ℕ, ◌*◌, ◌≡◌, none, List, length, All}
use post_quantum_iot_auth.Python.{Result, raised, ok, pure, ◌>>=◌}
use post_quantum_iot_auth.Python.Loops.{Returns_then, Returns_of, Returns, Returns_value}
use post_quantum_iot_auth.Platform.{Platform, IsDocumented}
use post_quantum_iot_auth.Falcon.{Flags, simulation, get_backend}
use post_quantum_iot_auth.Falcon.Crypto.{Libraries, IsEd25519}
use post_quantum_iot_auth.Device.{IotDevice}
use post_quantum_iot_auth.Hardhat.Client.{Web3}
use post_quantum_iot_auth.Runner.{RelayReport}
use post_quantum_iot_auth.Runner.Backend.{create_blockchain, setup_real_backend}
use post_quantum_iot_auth.Runner.Paths.{
  of_simulated, direct_on, run_direct_path, relay_on, run_relay_path,
}
use post_quantum_iot_auth.Runner.Repeated.{create_and_compare-All}
use post_quantum_iot_auth.Runner.Simulated.{run_relay_path as run_simulated_relay_path}
use post_quantum_iot_auth.Runner.Relayed.{IsSimulated, run_relay_path-simulation}
use post_quantum_iot_auth.Runner.Direct.{run_direct_path as run_simulated_direct_path}
use post_quantum_iot_auth.Runner.Receipted.{IsDirect, run_direct_path-IsDirect}
use post_quantum_iot_auth.Runner.Comparison.{Round, run_round, Comparison, create_and_compare}

module _ (P : Platform) (X : Web3 P) (L : Libraries P) (f : Flags) where
  -- Both paths submitted `n` readings, at the gas of their kind, and no verification failed.
  abbrev pub IsComplete : ℕ → Round P X L f → Type 0
  IsComplete n (direct, relay) =
      IsDirect P n direct.report
      × (relay.report.total_transactions ≡ n)
      × (relay.report.failed_verifications ≡ 0)
      × (relay.report.total_gas ≡ 821563 * n)

  of_simulated-Returns :
      {A : Type 0} (out : Result A × P.World) (G : A → Type 0)
      → Returns out (λ r _. G r)
      → Returns (of_simulated P none out) (λ p _. G p.report)
  of_simulated-Returns (ok r, w) G h = h
  of_simulated-Returns (raised e, w) G h = absurd h

  module _ (doc : IsDocumented P) (ed : IsEd25519 P L) (sim : get_backend f ≡ simulation) where
    run_round-IsComplete :
        (size batch_size n : ℕ) (devices : List IotDevice) (w : P.World)
        → All (IsSimulated P L f) devices
        → Returns
            (run_round P X L f false size batch_size n devices w)
            (λ p _. IsComplete (length devices * n) p)
    unfolding run_round run_direct_path direct_on run_relay_path relay_on create_blockchain
        setup_real_backend
    run_round-IsComplete size batch_size n devices w a =
        let Q = λ (p : Round P X L f) (_ : P.World). IsComplete (length devices * n) p in
        let relay = run_relay_path P X L f false size batch_size n devices in
        Returns_then (run_direct_path P X false size n devices) (λ d. relay >>= λ r. pure (d, r)) w
          (λ d _. IsDirect P (length devices * n) d.report) Q
          (of_simulated-Returns (run_simulated_direct_path P size n devices w)
            (IsDirect P (length devices * n)) (run_direct_path-IsDirect P doc size n devices w))
          (λ d v good.
            let (r, made, sent, failed, gas) =
              run_relay_path-simulation P L f doc ed size batch_size n devices v sim a in
            let out = run_simulated_relay_path P L f size batch_size n devices v in
            let G = λ (r : RelayReport P).
              (r.total_transactions ≡ length devices * n)
              × (r.failed_verifications ≡ 0)
              × (r.total_gas ≡ 821563 * (length devices * n)) in
            Returns_then relay (λ r. pure (d, r)) v (λ r _. G r.report) Q
              (of_simulated-Returns out G
                (Returns_of out.0 out.1 (λ r _. G r) made (sent, failed, gas)))
              (λ r u t. (good, t.0, t.1, t.2)))

    -- With hashes of 32 bytes, `urandom` and Ed25519 as documented, a comparison in the simulation
    -- backend on the simulated blockchain, with any number of rounds, creates its devices and
    -- returns: on both paths every reading of every device is submitted, at 91512 gas directly and
    -- 821563 gas relayed, and no verification fails.
    pub create_and_compare_lem :
        (stdev : List P.Float → P.Float) (size batch_size n rounds device_count : ℕ) (w : P.World)
        → (c : Comparison P X L f) × ((create_and_compare P X L f stdev false size batch_size n
              rounds device_count w).0
            ≡ ok c)
          × IsComplete (device_count * n) (c.direct_ecdsa, c.relay_falcon)
    create_and_compare_lem stdev size batch_size n rounds count w =
        let out = create_and_compare P X L f stdev false size batch_size n rounds count w in
        Returns_value out.0 out.1 (λ c _. IsComplete (count * n) (c.direct_ecdsa, c.relay_falcon))
          (create_and_compare-All P X L f doc ed sim stdev (λ k. IsComplete (k * n)) false size
            batch_size n rounds count w
            (λ devices v a. run_round-IsComplete size batch_size n devices v a))
