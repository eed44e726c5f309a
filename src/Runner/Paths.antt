-- ===== src/Runner/Paths.antt =====
-- `run_direct_path` and `run_relay_path` of relay_system/runner.py from their first line on: the choice
-- of the blockchain, its setup, the loops, and the entries of the result that are about the backend.
use post_quantum_iot_auth.Prelude.{ℕ, Bool, Option, none, some, List, Text, codes}
use post_quantum_iot_auth.Python.{Result, ok, raised, Exec, ◌>>◌}
use post_quantum_iot_auth.Platform.{Platform}
use post_quantum_iot_auth.Falcon.{Flags}
use post_quantum_iot_auth.Falcon.Crypto.{Libraries}
use post_quantum_iot_auth.Device.{IotDevice}
use post_quantum_iot_auth.Hardhat.Client.{Web3}
use post_quantum_iot_auth.Hardhat.{State}
use post_quantum_iot_auth.Hardhat.Decomposition.{Decomposition, get_gas_decomposition}
use post_quantum_iot_auth.Runner.{RelayReport, relay_path}
use post_quantum_iot_auth.Runner.Simulated.{run_relay_path as run_simulated_relay_path}
use post_quantum_iot_auth.Runner.Direct.{
  DirectReport, direct_path, run_direct_path as run_simulated_direct_path,
}
use post_quantum_iot_auth.Runner.Backend.{
  Blockchain, hardhat, simulated, create_blockchain, setup_real_backend, register_device_dids,
  real_batches, real_chains,
}

module _ (P : Platform) where
  -- The dictionary that a path returns: the entries on the transactions, and those on the backend.
  pub record PathResult (A : Type 0) : Type 0 where
    pub report : A
    pub backend : Text
    pub deploy_gas : Option ℕ
    pub gas_decomposition : Option (Decomposition P)

  module _ {A : Type 0} where
    abbrev pub of_simulated : Option ℕ → Result A × P.World → Result (PathResult A) × P.World
    of_simulated gas (ok r, w) = (
      ok (record {
        report = r;
        backend = codes "simulated";
        deploy_gas = gas;
        gas_decomposition = none;
      }),
      w,
    )
    of_simulated gas (raised e, w) = (raised e, w)

    module _ (X : Web3 P) where
      abbrev pub of_hardhat : Option ℕ → Result A × State P X → Result (PathResult A) × P.World
      of_hardhat gas (ok r, (b, w)) = (
        ok (record {
          report = r;
          backend = codes "hardhat";
          deploy_gas = gas;
          gas_decomposition = some (get_gas_decomposition P b);
        }),
        w,
      )
      of_hardhat gas (raised e, (b, w)) = (raised e, w)

  module _ (X : Web3 P) where
    -- What a path does once its blockchain is set up.
    abbrev pub Continuation : Type 0 → Type 0
    Continuation A = Option ℕ → Blockchain P X × P.World → Result (PathResult A) × P.World

    module _ {A : Type 0} where
      abbrev pub proceed :
          Continuation A
          → Result (Option ℕ) × (Blockchain P X × P.World)
          → Result (PathResult A) × P.World
      proceed path (ok gas, c) = path gas c
      proceed path (raised e, (chain, w)) = (raised e, w)

      -- The blockchain of a path is created and set up; where that raises, so does the path.
      abbrev pub set_up : Bool → Continuation A → Exec P.World (PathResult A)
      set_up use_real path w =
          proceed path (setup_real_backend P X (create_blockchain P X use_real w))

    unfoldable pub direct_on : ℕ → ℕ → List IotDevice → Continuation (DirectReport P)
    direct_on payload_size transactions_per_device devices gas (simulated chain, w) =
        of_simulated gas
          (run_simulated_direct_path P payload_size transactions_per_device devices w)
    direct_on payload_size transactions_per_device devices gas (hardhat backend, w) =
        of_hardhat X gas (
          direct_path P (real_chains P X) payload_size transactions_per_device devices (backend, w))

    -- `run_direct_path`
    unfoldable pub run_direct_path :
        Bool → ℕ → ℕ → List IotDevice → Exec P.World (PathResult (DirectReport P))
    run_direct_path use_real payload_size transactions_per_device devices =
        set_up use_real (direct_on payload_size transactions_per_device devices)

    module _ (L : Libraries P) (f : Flags) where
      unfoldable pub relay_on : ℕ → ℕ → ℕ → List IotDevice → Continuation (RelayReport P)
      relay_on payload_size batch_size transactions_per_device devices gas (simulated chain, w) =
          of_simulated gas (
            run_simulated_relay_path P L f payload_size batch_size transactions_per_device devices
              w)
      relay_on payload_size batch_size transactions_per_device devices gas (hardhat backend, w) =
          of_hardhat X gas (
            (register_device_dids P X devices
                >> relay_path P (real_batches P X) L f payload_size batch_size
                    transactions_per_device devices)
              (backend, w))

      -- `run_relay_path`
      unfoldable pub run_relay_path :
          Bool → ℕ → ℕ → ℕ → List IotDevice → Exec P.World (PathResult (RelayReport P))
      run_relay_path use_real payload_size batch_size transactions_per_device devices =
          set_up use_real (relay_on payload_size batch_size transactions_per_device devices)
