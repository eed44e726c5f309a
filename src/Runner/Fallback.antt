-- ===== src/Runner/Fallback.antt =====
-- The paths of relay_system/runner.py where there is no node to connect to.
use post_quantum_iot_auth.Prelude.{ℕ, ◌≡◌, refl, ap, true, false, none, List}
use post_quantum_iot_auth.Platform.{Platform}
use post_quantum_iot_auth.Falcon.{Flags}
use post_quantum_iot_auth.Falcon.Crypto.{Libraries}
use post_quantum_iot_auth.Device.{IotDevice}
use post_quantum_iot_auth.Chain.{new_blockchain}
use post_quantum_iot_auth.Hardhat.Client.{Web3}
use post_quantum_iot_auth.Hardhat.{new_backend, get_w3}
use post_quantum_iot_auth.Runner.Simulated.{run_relay_path as run_simulated_relay_path}
use post_quantum_iot_auth.Runner.Direct.{run_direct_path as run_simulated_direct_path}
use post_quantum_iot_auth.Runner.Backend.{simulated, create_blockchain, setup_real_backend}
use post_quantum_iot_auth.Runner.Paths.{
  of_simulated, proceed, direct_on, run_direct_path, relay_on, run_relay_path,
}

module _ (P : Platform) (X : Web3 P) where
  create_blockchain-false :
      (w : P.World)
      → (X.is_connected w).0 ≡ false
      → create_blockchain P X true w ≡ (simulated (new_blockchain P 42), (X.is_connected w).1)
  unfolding create_blockchain get_w3 new_backend
  create_blockchain-false w offline = rw offline refl

  -- Where a real blockchain is asked for and the node cannot be reached, both paths return, or raise,
  -- what they do on the simulated blockchain, under its name, without a deployment and a
  -- decomposition.
  pub paths_fall_back :
      (L : Libraries P) (f : Flags) (size batch_size n : ℕ) (devices : List IotDevice) (w : P.World)
      → (X.is_connected w).0 ≡ false
      → let w' = (X.is_connected w).1 in
        (run_direct_path P X true size n devices w
          ≡ of_simulated P none (run_simulated_direct_path P size n devices w'))
        × (run_relay_path P X L f true size batch_size n devices w
            ≡ of_simulated P none (run_simulated_relay_path P L f size batch_size n devices w'))
  unfolding run_direct_path direct_on run_relay_path relay_on setup_real_backend
  paths_fall_back L f size batch_size n devices w offline =
      let e = create_blockchain-false w offline in
      (
        ap (λ c. proceed P X (direct_on P X size n devices) (setup_real_backend P X c)) e,
        ap
            (λ c.
              proceed P X (relay_on P X L f size batch_size n devices) (setup_real_backend P X c))
            e,
      )
