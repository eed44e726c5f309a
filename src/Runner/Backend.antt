-- ===== src/Runner/Backend.antt =====
-- The parts of relay_system/runner.py that drive a real blockchain: `_create_blockchain`,
-- `_setup_real_backend`, `_register_device_dids` and the Hardhat branch of `_submit_batch`.
use post_quantum_iot_auth.Prelude.{
  ℕ, Bool, true, false, Option, none, some, List, [], ◌∷◌, Text, codes, sum,
}
use post_quantum_iot_auth.Python.{type_error, Result, ok, raised, Exec, pure, or_raise, ◌>>=◌}
use post_quantum_iot_auth.Python.Loops.{for_each}
use post_quantum_iot_auth.Python.Text.{encode}
use post_quantum_iot_auth.Platform.{Platform}
use post_quantum_iot_auth.Device.{IotDevice}
use post_quantum_iot_auth.Chain.{SimulatedBlockchain, Transaction, new_blockchain}
use post_quantum_iot_auth.Hardhat.Client.{Web3}
use post_quantum_iot_auth.Runner.{Pending, Batches}
use post_quantum_iot_auth.Runner.Direct.{Blockchains}
use post_quantum_iot_auth.Hardhat.{
  HardhatBackend, State, new_backend, get_w3, deploy_contracts, ensure_did_registered,
  submit_transaction, submit_meta_transaction, get_receipt,
}

module _ (P : Platform) (X : Web3 P) where
  open P use {Float, World}

  -- A blockchain with its name, "hardhat" or "simulated".
  pub data Blockchain : Type 0 where
    hardhat : HardhatBackend P X → Blockchain
    simulated : SimulatedBlockchain P → Blockchain

  abbrev pub connected : Result (Unit {0}) → HardhatBackend P X → Blockchain
  connected (ok _) backend = hardhat backend
  connected (raised e) backend = simulated (new_blockchain P 42)

  -- `_create_blockchain`
  unfoldable pub create_blockchain : Bool → World → Blockchain × World
  create_blockchain false w = (simulated (new_blockchain P 42), w)
  create_blockchain true w =
      let (r, (backend, w')) = get_w3 P X (new_backend P X, w) in (connected r backend, w')

  -- `_setup_real_backend`: the gas of the deployment, where there are contracts to deploy
  unfoldable pub setup_real_backend : Exec (Blockchain × World) (Option ℕ)
  setup_real_backend (simulated chain, w) = (ok none, (simulated chain, w))
  setup_real_backend (hardhat backend, w) =
      let (r, (backend', w')) = (deploy_contracts P X >>= λ gas. pure (some gas)) (backend, w) in
      (r, (hardhat backend', w'))

  -- `_register_device_dids` on the Hardhat backend
  unfoldable pub register_device_dids : List IotDevice → Exec (State P X) (Unit {0})
  register_device_dids devices =
      for_each devices (λ device.
        ensure_did_registered P X (P.sha256 (encode device.did)) device.keypair.public_key)

  -- `bc.get_receipt(tx_hash)`, which is indexed
  abbrev pub receipt_of : Text → Exec (State P X) (Transaction P)
  receipt_of tx_hash s = or_raise (get_receipt P X tx_hash s.0) type_error s

  abbrev pub submit_item : Pending → Exec (State P X) Text
  submit_item item =
      submit_meta_transaction P X (codes "relay-node-001") item.data_hash item.signature_size true
        (record {
          data_hash_bytes = some item.data_hash_bytes;
          did_hash_bytes = some item.did_hash_bytes;
          signature_bytes = some item.signature_bytes;
          did_public_key = some item.did_public_key;
        })

  -- The loop: `gas_costs` and `latencies`.
  unfoldable pub submit_real_items : Float → List Pending → Exec (State P X) (List ℕ × List Float)
  submit_real_items verify_latency [] = pure ([], [])
  submit_real_items verify_latency (item ∷ items) = do
    tx_hash ← submit_item item
    receipt ← receipt_of tx_hash
    (gas_costs, latencies) ← submit_real_items verify_latency items
    pure (receipt.gas_used ∷ gas_costs, P.add verify_latency receipt.latency_ms ∷ latencies)

  -- `_submit_batch` on the Hardhat backend
  unfoldable pub submit_real_batch : Float → List Pending → Exec (State P X) (ℕ × List Float)
  submit_real_batch verify_latency items = do
    (gas_costs, latencies) ← submit_real_items verify_latency items
    pure (sum gas_costs, latencies)

  abbrev pub real_batches : Batches P
  real_batches = record { Relay = HardhatBackend P X; submit_batch = submit_real_batch }

  abbrev pub real_chains : Blockchains P
  real_chains = record {
    Chain = HardhatBackend P X;
    submit_transaction = submit_transaction P X;
    get_receipt = get_receipt P X;
  }
