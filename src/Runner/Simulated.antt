-- ===== src/Runner/Simulated.antt =====
-- `run_relay_path` of relay_system/runner.py on the simulated blockchain, and its branch of
-- `_submit_batch`.
use post_quantum_iot_auth.Prelude.{ℕ, true, List, [], ◌∷◌, sum, codes}
use post_quantum_iot_auth.Python.{Result, ok, raised, type_error, Exec, pure, lift, ◌>>=◌}
use post_quantum_iot_auth.Platform.{Platform}
use post_quantum_iot_auth.Falcon.{Flags}
use post_quantum_iot_auth.Falcon.Crypto.{Libraries}
use post_quantum_iot_auth.Device.{IotDevice}
use post_quantum_iot_auth.Chain.{new_blockchain}
use post_quantum_iot_auth.RelayNode.{
  RelayNode, Submitted, hash_only, metrics, new_relay, submit_verified_transaction,
}
use post_quantum_iot_auth.Runner.{Pending, Batches, RelayReport, relay_path}

module _ (P : Platform) where
  open P use {Float, World}

  -- The objects that a batch works on.
  abbrev pub Relaying : Type 0
  Relaying = RelayNode P × World

  -- `relay_result["gas_used"]` and `["total_latency_ms"]`; a plain hash has no entries.
  abbrev pub gas_and_latency : Submitted P → Result (ℕ × Float)
  gas_and_latency (hash_only h) = raised type_error
  gas_and_latency (metrics m) = ok (m.gas_used, m.total_latency_ms)

  -- The loop of `_submit_batch`: the costs and the latencies of the items.
  unfoldable pub submit_each : Float → List Pending → Exec Relaying (List ℕ × List Float)
  submit_each verify_latency [] = pure ([], [])
  submit_each verify_latency (item ∷ items) = do
    result ←
        submit_verified_transaction P item.device_did item.data_hash item.signature_bytes
          item.verified true
    (gas, latency) ← lift (gas_and_latency result)
    (costs, latencies) ← submit_each verify_latency items
    pure (gas ∷ costs, P.add verify_latency latency ∷ latencies)

  -- `_submit_batch`
  unfoldable pub submit_batch : Float → List Pending → Exec Relaying (ℕ × List Float)
  submit_batch verify_latency items = do
    (costs, latencies) ← submit_each verify_latency items
    pure (sum costs, latencies)

  abbrev pub simulated_batches : Batches P
  simulated_batches = record { Relay = RelayNode P; submit_batch = submit_batch }

  -- `run_relay_path` of a runner whose `_create_blockchain` gave the simulated backend; its relay node
  -- has a blockchain of its own.
  unfoldable pub run_relay_path :
      (L : Libraries P) → Flags → ℕ → ℕ → ℕ → List IotDevice → Exec World (RelayReport P)
  run_relay_path L f payload_size batch_size transactions_per_device devices w =
      let (r, (relay, w₁)) =
        relay_path P simulated_batches L f payload_size batch_size transactions_per_device devices
          (new_relay P (codes "relay-node-001") (new_blockchain P 42), w) in
      (r, w₁)
