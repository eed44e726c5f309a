-- ===== src/Runner/Direct.antt =====
-- `run_direct_path` of ComparisonRunner in relay_system/runner.py, on any kind of blockchain.
use post_quantum_iot_auth.Prelude.{
  Bool, Text, ℕ, ◌+◌, ◌/◌, true, Option, none, some, List, length, leb, if◌then◌else◌, true,
}
use post_quantum_iot_auth.Python.{Result, ok, raised, type_error, Exec, call, on_second, ◌>>=◌}
use post_quantum_iot_auth.Python.Text.{hex}
use post_quantum_iot_auth.Python.Loops.{repeat, for_each}
use post_quantum_iot_auth.Platform.{Platform}
use post_quantum_iot_auth.Device.{IotDevice, generate_sensor_data}
use post_quantum_iot_auth.Chain.{
  SimulatedBlockchain, Transaction, new_blockchain, submit_transaction, get_receipt,
}
use post_quantum_iot_auth.Runner.{ratio_or_zero}

-- What `run_direct_path` calls of a blockchain.
pub record Blockchains (P : Platform) : Type 1 where
  pub Chain : Type 0
  pub submit_transaction : Text → Text → ℕ → Bool → Exec (Chain × P.World) Text
  pub get_receipt : Text → Chain → Option (Transaction P)

module _ (P : Platform) where
  open P use {Float, World}

  -- The entries of the result that are computed.
  pub record DirectReport : Type 0 where
    pub total_transactions : ℕ
    pub total_latency_ms : Float
    pub avg_latency_ms : Float
    pub total_gas : ℕ
    pub avg_gas_per_tx : Float
    pub wall_time_ms : Float

  module _ (C : Blockchains P) where
    -- The local variables of `run_direct_path`, its blockchain and the world.
    pub record DirectRun : Type 0 where
      pub blockchain : C.Chain
      pub world : World
      pub total_transactions : ℕ
      pub total_latency : Float
      pub total_gas : ℕ

    -- The three additions; a receipt that is missing is `None`, which has no entries.
    abbrev pub add_receipt : Option (Transaction P) → Exec DirectRun Unit
    add_receipt none r = (raised type_error, r)
    add_receipt (some receipt) r = (
      ok tt,
      record r {
        total_transactions = r.total_transactions + 1;
        total_latency = P.add r.total_latency receipt.latency_ms;
        total_gas = r.total_gas + receipt.gas_used;
      },
    )

    abbrev pub with_chain : {A : Type 0} → Exec (C.Chain × World) A → Exec DirectRun A
    with_chain m r =
        let (a, (c, w)) = m (r.blockchain, r.world) in (a, record r { blockchain = c; world = w })

    -- `bc.get_receipt(tx_hash)`, and what follows in the round
    abbrev pub add_receipt_of : Text → Exec DirectRun Unit
    add_receipt_of tx_hash r = add_receipt (C.get_receipt tx_hash r.blockchain) r

    -- One round of the inner loop.
    unfoldable pub direct_round : ℕ → IotDevice → Exec DirectRun Unit
    direct_round payload_size device = do
      payload ← with_chain (on_second (call (generate_sensor_data P device payload_size)))
      let data_hash = hex (P.sha256 payload)
      tx_hash ← with_chain (C.submit_transaction device.did data_hash (length data_hash / 2) true)
      add_receipt_of tx_hash

    unfoldable pub direct_loops : ℕ → ℕ → List IotDevice → Exec DirectRun Unit
    direct_loops payload_size transactions_per_device devices =
        for_each devices
          (λ device. repeat transactions_per_device (direct_round payload_size device))

    -- `total_latency / total_transactions if total_transactions else 0`
    abbrev mean_latency : DirectRun → Float
    mean_latency r =
        if leb 1 r.total_transactions
        then P.div r.total_latency (P.float r.total_transactions)
        else P.float 0

    unfoldable pub direct_report : Float → DirectRun → DirectReport × World
    direct_report start r =
        let (stop, w) = P.perf_counter r.world in
        (
          record {
            total_transactions = r.total_transactions;
            total_latency_ms = r.total_latency;
            avg_latency_ms = mean_latency r;
            total_gas = r.total_gas;
            avg_gas_per_tx = ratio_or_zero P r.total_gas r.total_transactions;
            wall_time_ms = P.mul (P.sub stop start) (P.float 1000);
          },
          w,
        )

    abbrev pub finish_direct :
        Float → Result (Unit {0}) × DirectRun → Result DirectReport × (C.Chain × World)
    finish_direct start (ok _, r) =
        let (result, w) = direct_report start r in (ok result, (r.blockchain, w))
    finish_direct start (raised e, r) = (raised e, (r.blockchain, r.world))

    unfoldable pub new_direct_run : C.Chain → World → DirectRun
    new_direct_run chain w = record {
      blockchain = chain;
      world = w;
      total_transactions = 0;
      total_latency = P.float 0;
      total_gas = 0;
    }

    -- `run_direct_path` from the start of the clock on
    unfoldable pub direct_path : ℕ → ℕ → List IotDevice → Exec (C.Chain × World) DirectReport
    direct_path payload_size transactions_per_device devices (chain, w) =
        let (start, w₁) = P.perf_counter w in
        finish_direct start
          (direct_loops payload_size transactions_per_device devices (new_direct_run chain w₁))

  abbrev pub simulated_chains : Blockchains P
  simulated_chains = record {
    Chain = SimulatedBlockchain P;
    submit_transaction =
        λ sender data_hash size store. call (submit_transaction P sender data_hash size store);
    get_receipt = get_receipt P;
  }

  -- `run_direct_path` of a runner whose `_create_blockchain` gave the simulated backend.
  unfoldable pub run_direct_path : ℕ → ℕ → List IotDevice → Exec World DirectReport
  run_direct_path payload_size transactions_per_device devices w =
      let (r, (chain, w₁)) =
        direct_path simulated_chains payload_size transactions_per_device devices
          (new_blockchain P 42, w) in
      (r, w₁)
