-- ===== src/Scalability/Simulated.antt =====
-- The second phase of ScalabilityRunner.run in scalability/scalability_runner.py, on the simulated
-- blockchain.
use post_quantum_iot_auth.Prelude.{ℕ, true, List, [], ◌∷◌}
use post_quantum_iot_auth.Python.{Exec, pure, lift, ◌>>=◌}
use post_quantum_iot_auth.Platform.{Platform}
use post_quantum_iot_auth.RelayNode.{RelayNode, submit_verified_transaction}
use post_quantum_iot_auth.Runner.Simulated.{gas_and_latency}
use post_quantum_iot_auth.Scalability.{Item, Submissions}

module _ (P : Platform) where
  open P use {Float, World}

  -- The loop of the second phase: `gas_costs` and `bc_latencies`.
  unfoldable pub submit_items : List (Item P) → Exec (RelayNode P × World) (List ℕ × List Float)
  submit_items [] = pure ([], [])
  submit_items (item ∷ items) = do
    result ← submit_verified_transaction P item.device.did item.data_hash item.sig true true
    (gas, latency) ← lift (gas_and_latency P result)
    (gas_costs, bc_latencies) ← submit_items items
    pure (gas ∷ gas_costs, latency ∷ bc_latencies)

  abbrev pub simulated_submissions : Submissions P
  simulated_submissions = record { Relay = RelayNode P; submit_items = submit_items }
