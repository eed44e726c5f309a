-- ===== src/Runner/Relayed.antt =====
-- On the simulated blockchain every reading of the relay path of relay_system/runner.py is submitted once
-- or counted as a failure.
use post_quantum_iot_auth.Prelude.{
  codes, ℕ, ◌+◌, ◌*◌, ◌≡◌, refl, ◌⊎◌, inr, Bool, true, false, List, arith, length, All, All-map,
}
use post_quantum_iot_auth.Python.{ok}
use post_quantum_iot_auth.Python.Loops.{Returns_value}
use post_quantum_iot_auth.Platform.{Platform}
use post_quantum_iot_auth.Falcon.{Flags, falcon_verify}
use post_quantum_iot_auth.Falcon.Crypto.{Libraries}
use post_quantum_iot_auth.Device.{IotDevice, sign_data}
use post_quantum_iot_auth.RelayNode.{new_relay}
use post_quantum_iot_auth.Chain.{new_blockchain}
use post_quantum_iot_auth.Runner.{RelayReport, relay_path}
use post_quantum_iot_auth.Runner.Simulated.{simulated_batches, run_relay_path}
use post_quantum_iot_auth.Runner.Charges.{IsCharged, simulated_batches-Books}
use post_quantum_iot_auth.Runner.Rounds.{Signs, relay_path-Accounts}
use post_quantum_iot_auth.Platform.{IsDocumented}
use post_quantum_iot_auth.Falcon.{simulation, get_backend, falcon_sign}
use post_quantum_iot_auth.Falcon.Crypto.{IsEd25519}
use post_quantum_iot_auth.Falcon.RoundTrip.{Carries, simulation_verify-sign}

module _ (P : Platform) where
  module _ (L : Libraries P) (f : Flags) where
    -- A report for `n` readings: they are submitted or failed, and each that is submitted has cost
    -- 821563.
    abbrev IsReport : Bool → ℕ → RelayReport P → Type 0
    IsReport strict n r =
        (r.total_transactions + r.failed_verifications ≡ n)
        × (r.total_gas ≡ 821563 * r.total_transactions)
        × ((strict ≡ false) ⊎ (r.failed_verifications ≡ 0))

    run_relay_path-IsReport :
        (strict : Bool) (size batch_size n : ℕ) (devices : List IotDevice) (w : P.World)
        → All (Signs P L f strict) devices
        → (r : RelayReport P) × ((run_relay_path P L f size batch_size n devices w).0 ≡ ok r)
          × IsReport strict (length devices * n) r
    unfolding run_relay_path new_relay
    run_relay_path-IsReport strict size batch_size n devices w a =
        let relay = new_relay P (codes "relay-node-001") (new_blockchain P 42) in
        let out = relay_path P (simulated_batches P) L f size batch_size n devices (relay, w) in
        let (r, returned, c) = Returns_value out.0 out.1 _ (
          relay_path-Accounts P L f (simulated_batches P) (IsCharged P) (simulated_batches-Books P)
            strict size batch_size n devices relay w (omega arith, refl) a) in
        (r, returned, (c.complete, c.ledger.0, c.clean))

    -- Whichever signatures verify, if signing and verification return, the relay path returns: for
    -- every batch size, each of the readings is submitted or counted as failed, and the gas is 821563
    -- for each that is submitted.
    pub run_relay_path_complete :
        (size batch_size n : ℕ) (devices : List IotDevice) (w : P.World)
        → All (Signs P L f false) devices
        → (r : RelayReport P) × ((run_relay_path P L f size batch_size n devices w).0 ≡ ok r)
          × (r.total_transactions + r.failed_verifications ≡ length devices * n)
          × (r.total_gas ≡ 821563 * r.total_transactions)
    run_relay_path_complete size batch_size n devices w a =
        let (r, returned, (complete, charged, _)) =
          run_relay_path-IsReport false size batch_size n devices w a in
        (r, returned, complete, charged)

    -- A device whose key pair is one of the simulation backend.
    abbrev pub IsSimulated : IotDevice → Type 0
    IsSimulated d = (k : L.PrivateKey) × Carries P L k d.keypair

    module _ (doc : IsDocumented P) (ed : IsEd25519 P L) where
      pub IsSimulated-Signs :
          (strict : Bool) (d : IotDevice)
          → get_backend f ≡ simulation
          → IsSimulated d
          → Signs P L f strict d
      unfolding sign_data falcon_sign falcon_verify get_backend
      IsSimulated-Signs strict d sim (k, c) = record {
        at = λ payload w.
            let (s, signed, _, good) = simulation_verify-sign P L doc ed k d.keypair payload c in
            (s, true, ground (arith, signed), ground (arith, good), inr refl);
      }

      -- With hashes of 32 bytes, `urandom` and Ed25519 as documented, and the devices' key pairs made
      -- by the simulation backend, in that backend the relay path returns with every reading submitted, no failure,
      -- and 821563 gas for each.
      pub run_relay_path-simulation :
          (size batch_size n : ℕ) (devices : List IotDevice) (w : P.World)
          → get_backend f ≡ simulation
          → All IsSimulated devices
          → (r : RelayReport P) × ((run_relay_path P L f size batch_size n devices w).0 ≡ ok r)
            × (r.total_transactions ≡ length devices * n)
            × (r.failed_verifications ≡ 0)
            × (r.total_gas ≡ 821563 * (length devices * n))
      run_relay_path-simulation size batch_size n devices w sim a =
          let (r, returned, (complete, charged, clean)) =
            run_relay_path-IsReport true size batch_size n devices w (
              All-map IsSimulated (Signs P L f true) devices (λ d k. IsSimulated-Signs true d sim k)
                a) in
          let none_failed : r.failed_verifications ≡ 0 = ground (arith, clean) in
          (
            r,
            returned,
            omega (arith, complete, none_failed),
            none_failed,
            ground (arith, charged, complete, none_failed),
          )
