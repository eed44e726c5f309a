-- ===== src/Scalability/Suite.antt =====
-- ScalabilityRunner.run and run_scalability_suite of scalability/scalability_runner.py.
use post_quantum_iot_auth.Prelude.{
  ℕ, zero, suc, ◌+◌, ◌-◌, Bool, Option, List, [], ◌∷◌, ◌++◌, Text, codes, length, replicate,
}
use post_quantum_iot_auth.Python.{Result, Exec, pure, on_second, ◌>>=◌, ◌>>◌}
use post_quantum_iot_auth.Python.Text.{decimal}
use post_quantum_iot_auth.Platform.{Platform}
use post_quantum_iot_auth.Falcon.{Flags}
use post_quantum_iot_auth.Falcon.Crypto.{Libraries}
use post_quantum_iot_auth.Device.{IotDevice, new_device}
use post_quantum_iot_auth.Chain.{new_blockchain, get_or}
use post_quantum_iot_auth.RelayNode.{new_relay}
use post_quantum_iot_auth.Hardhat.Client.{Web3}
use post_quantum_iot_auth.Hardhat.{State, deploy_contracts}
use post_quantum_iot_auth.Runner.Backend.{
  Blockchain, hardhat, simulated, create_blockchain, register_device_dids,
}
use post_quantum_iot_auth.Scalability.{Worker, suite_threads}
use post_quantum_iot_auth.Scalability.Report.{Statistics, ScalabilityResult}
use post_quantum_iot_auth.Scalability.Run.{run_phases}
use post_quantum_iot_auth.Scalability.Simulated.{simulated_submissions}
use post_quantum_iot_auth.Scalability.Real.{real_submissions}

-- `f"{i:05d}"`
abbrev pub five_digits : ℕ → Text
five_digits i = let t = decimal i in replicate (5 - length t) 48 ++ t

module _ (P : Platform) where
  -- What the threads of a run leave open: the schedule of the workers, and the order in which their
  -- futures complete.
  pub record Timing : Type 0 where
    pub schedule : List ℕ
    pub order : List (Worker P) → List (Worker P)

  module _ (L : Libraries P) (f : Flags) where
    -- The devices from number `i` on.
    unfoldable pub devices_from : ℕ → ℕ → Exec P.World (List IotDevice)
    devices_from i zero = pure []
    devices_from i (suc n) = do
      device ← new_device P L f (codes "scale-device-" ++ five_digits i)
      devices ← devices_from (i + 1) n
      pure (device ∷ devices)

    module _ (X : Web3 P) (T : Statistics P) (timing : Timing)
        (payload_size transactions_per_device concurrent_threads device_count : ℕ) where
      unfoldable pub run_on_hardhat : Exec (State P X) (ScalabilityResult P)
      run_on_hardhat = do
        deploy_contracts P X
        devices ← on_second (devices_from 0 device_count)
        register_device_dids P X devices
        run_phases P T (real_submissions P X) L f (codes "hardhat") payload_size
            transactions_per_device concurrent_threads devices timing.schedule timing.order

      unfoldable pub run_on_simulated : Exec P.World (ScalabilityResult P)
      run_on_simulated w =
          let (r, (relay, w')) =
            (on_second (devices_from 0 device_count) >>= λ devices.
            run_phases P T (simulated_submissions P) L f (codes "simulated") payload_size
              transactions_per_device concurrent_threads devices timing.schedule timing.order)
              (new_relay P (codes "relay-scale") (new_blockchain P 42), w) in
          (r, w')

      abbrev pub run_on : Blockchain P X × P.World → Result (ScalabilityResult P) × P.World
      run_on (simulated chain, w) = run_on_simulated w
      run_on (hardhat backend, w) = let (r, (b, w')) = run_on_hardhat (backend, w) in (r, w')

      -- `run`; the file has its own copy of `_create_blockchain`
      unfoldable pub run : Bool → Exec P.World (ScalabilityResult P)
      run use_real w = run_on (create_blockchain P X use_real w)

    module _ (X : Web3 P) (T : Statistics P) (timings : ℕ → ℕ → Timing)
        (transactions_per_device : ℕ) (concurrent_threads : Option ℕ) (use_real : Bool) where
      -- The loop of the suite, from its run number `k` on; a run's timing is that of its number and
      -- its devices. The payload size is the default one.
      unfoldable pub run_counts : ℕ → List ℕ → Exec P.World (List (ScalabilityResult P))
      run_counts k [] = pure []
      run_counts k (count ∷ counts) = do
        result ←
            run X T (timings k count) 256 transactions_per_device
              (suite_threads concurrent_threads count) count use_real
        results ← run_counts (k + 1) counts
        pure (result ∷ results)

      unfoldable pub run_scalability_suite :
          Option (List ℕ) → Exec P.World (List (ScalabilityResult P))
      run_scalability_suite device_counts =
          run_counts 0 (get_or device_counts (50 ∷ 100 ∷ 500 ∷ 1000 ∷ []))
