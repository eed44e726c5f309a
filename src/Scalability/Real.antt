-- ===== src/Scalability/Real.antt =====
-- The second phase of ScalabilityRunner.run in scalability/scalability_runner.py, on the Hardhat backend.
use post_quantum_iot_auth.Prelude.{ℕ, true, some, List, [], ◌∷◌, Text, codes, length}
use post_quantum_iot_auth.Python.{Exec, pure, ◌>>=◌}
use post_quantum_iot_auth.Platform.{Platform}
use post_quantum_iot_auth.Python.Text.{encode}
use post_quantum_iot_auth.Hardhat.Client.{Web3}
use post_quantum_iot_auth.Hardhat.{HardhatBackend, State, submit_meta_transaction}
use post_quantum_iot_auth.Runner.Backend.{receipt_of}
use post_quantum_iot_auth.Scalability.{Item, Submissions}

module _ (P : Platform) (X : Web3 P) where
  open P use {Float, World}

  abbrev pub submit_item : Item P → Exec (State P X) Text
  submit_item item =
      submit_meta_transaction P X (codes "relay-scale") item.data_hash (length item.sig) true
        (record {
          data_hash_bytes = some (P.sha256 item.payload);
          did_hash_bytes = some (P.sha256 (encode item.device.did));
          signature_bytes = some item.sig;
          did_public_key = some item.device.keypair.public_key;
        })

  -- The loop of the second phase: `gas_costs` and `bc_latencies`.
  unfoldable pub submit_items : List (Item P) → Exec (State P X) (List ℕ × List Float)
  submit_items [] = pure ([], [])
  submit_items (item ∷ items) = do
    tx_hash ← submit_item item
    receipt ← receipt_of P X tx_hash
    (gas_costs, bc_latencies) ← submit_items items
    pure (receipt.gas_used ∷ gas_costs, receipt.latency_ms ∷ bc_latencies)

  abbrev pub real_submissions : Submissions P
  real_submissions = record { Relay = HardhatBackend P X; submit_items = submit_items }
