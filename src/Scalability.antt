-- ===== src/Scalability.antt =====
-- scalability/scalability_runner.py: the first phase of ScalabilityRunner.run. Its worker threads take
-- turns, one round at a time, in the order that a schedule gives.
pub mod Simulated
pub mod Real
pub mod Suite
pub mod Charged
pub mod Recorded
pub mod Finished
pub mod Suites
pub mod Empty
pub mod Table
pub mod Csv
pub mod Report
pub mod Run
pub mod Schedules
pub mod Phases
pub mod Threads
pub mod Fairness
use post_quantum_iot_auth.Prelude.{
  ℕ, zero, suc, ◌+◌, ◌/◌, Bool, true, false, Option, none, some, List, [], ◌∷◌, ◌++◌, if◌then◌else◌,
  Bytes, Text, codes, length, min, max, map, sum, leb, ◌==◌,
}
use post_quantum_iot_auth.Python.{
  Error, index_error, value_error, Result, ok, raised, Exec, pure, lift, call, on_second, ◌>>=◌,
}
use post_quantum_iot_auth.Platform.{Platform}
use post_quantum_iot_auth.Falcon.{Flags}
use post_quantum_iot_auth.Falcon.Crypto.{Libraries}
use post_quantum_iot_auth.Device.{IotDevice, generate_sensor_data, sign_data}
use post_quantum_iot_auth.Gateway.{Gateway, GatewayResult, new_gateway, relay_data}
use post_quantum_iot_auth.Chain.{new_blockchain}
use post_quantum_iot_auth.RelayNode.{RelayNode, new_relay, submit_verified_transaction}
use post_quantum_iot_auth.Runner.{ratio_or_zero}
use post_quantum_iot_auth.Runner.Simulated.{gas_and_latency}

-- The number of threads: the one asked for, or one that grows with the devices.
unfoldable pub thread_count : Option ℕ → ℕ → ℕ
thread_count (some concurrent_threads) device_count = concurrent_threads
thread_count none device_count = min device_count (max 4 (device_count / 5))

-- `concurrent_threads or …`, by which `run_scalability_suite` sets the threads of a runner
unfoldable pub suite_threads : Option ℕ → ℕ → ℕ
suite_threads none count = min count (max 4 (count / 5))
suite_threads (some concurrent_threads) count =
    if concurrent_threads == 0 then min count (max 4 (count / 5)) else concurrent_threads

module _ (P : Platform) where
  open P use {Float, World}

  -- An element of `verified_items`.
  pub record Item : Type 0 where
    pub device : IotDevice
    pub payload : Bytes
    pub sig : Bytes
    pub data_hash : Text
    pub verify_time_ms : Float

  -- A worker: what is left of its loop, its local variables, and the exception that ended it.
  pub record Worker : Type 0 where
    pub device : IotDevice
    pub remaining : ℕ
    pub local_failed : ℕ
    pub local_gw_latencies : List Float
    pub local_items : List Item
    pub error : Option Error

  -- What the workers share.
  abbrev pub Shared : Type 0
  Shared = Gateway P × World

  unfoldable pub new_worker : ℕ → IotDevice → Worker
  new_worker transactions_per_device device = record {
    device = device;
    remaining = transactions_per_device;
    local_failed = 0;
    local_gw_latencies = [];
    local_items = [];
    error = none;
  }

  -- the end of a round of `verify_worker`
  abbrev pub note_result : Worker → Bytes → Bytes → Float → GatewayResult P → Worker
  note_result worker payload sig verify_time result =
      if result.verified
      then record worker {
        local_gw_latencies = worker.local_gw_latencies ++ verify_time ∷ [];
        local_items =
            worker.local_items
            ++ record {
              device = worker.device;
              payload = payload;
              sig = sig;
              data_hash = result.data_hash;
              verify_time_ms = verify_time;
            }
              ∷ [];
      }
      else record worker {
        local_gw_latencies = worker.local_gw_latencies ++ verify_time ∷ [];
        local_failed = worker.local_failed + 1;
      }

  module _ (L : Libraries P) (f : Flags) where
    -- One round of the loop of `verify_worker`.
    unfoldable pub verify_round : ℕ → Worker → Exec Shared Worker
    verify_round payload_size worker = do
      let device = worker.device
      payload ← on_second (call (generate_sensor_data P device payload_size))
      sig ← on_second (sign_data P L f device payload)
      t0 ← on_second (call P.perf_counter)
      result ← relay_data P L f device.did device.keypair.public_key payload sig
      t1 ← on_second (call P.perf_counter)
      pure (note_result worker payload sig (P.mul (P.sub t1 t0) (P.float 1000)) result)

    -- An exception ends the worker; its future keeps it.
    abbrev pub settle : ℕ → Worker → Result Worker × Shared → Worker × Shared
    settle left worker (ok worker', s) = (record worker' { remaining = left }, s)
    settle left worker (raised e, s) = (record worker { remaining = 0; error = some e }, s)

    -- A turn of a worker: the next round, if one is left.
    abbrev pub rounds_left : ℕ → ℕ → Worker → Shared → Worker × Shared
    rounds_left zero payload_size worker s = (worker, s)
    rounds_left (suc left) payload_size worker s =
        settle left worker (verify_round payload_size worker s)

    unfoldable pub turn : ℕ → Worker → Shared → Worker × Shared
    turn payload_size worker s = rounds_left worker.remaining payload_size worker s

    -- The turn of the worker with a number; another number is nobody's.
    unfoldable pub turn_of : ℕ → ℕ → List Worker → Shared → List Worker × Shared
    turn_of payload_size i [] s = ([], s)
    turn_of payload_size zero (worker ∷ workers) s =
        let (worker', s') = turn payload_size worker s in (worker' ∷ workers, s')
    turn_of payload_size (suc i) (worker ∷ workers) s =
        let (workers', s') = turn_of payload_size i workers s in (worker ∷ workers', s')

    -- The first phase, under a schedule.
    unfoldable pub run_schedule : ℕ → List ℕ → List Worker → Shared → List Worker × Shared
    run_schedule payload_size [] workers s = (workers, s)
    run_schedule payload_size (i ∷ schedule) workers s =
        let (workers', s') = turn_of payload_size i workers s in
        run_schedule payload_size schedule workers' s'

  -- `failed_transactions`, `gateway_latencies` and `verified_items`
  pub record Collected : Type 0 where
    pub failed_transactions : ℕ
    pub gateway_latencies : List Float
    pub verified_items : List Item

  -- The loop over `as_completed(futures)`; `future.result()` raises what ended its worker.
  unfoldable pub collect : List Worker → Collected → Result Collected
  collect [] c = ok c
  collect (worker ∷ workers) c = elim worker.error [
    | some e ↦ raised e
    | none ↦ collect workers (record {
      failed_transactions = c.failed_transactions + worker.local_failed;
      gateway_latencies = c.gateway_latencies ++ worker.local_gw_latencies;
      verified_items = c.verified_items ++ worker.local_items;
    })
  ]

-- What the second phase does differently on a real and on the simulated blockchain: the object that
-- items go to, `bc` or `relay`, and the loop with the branch for it, which gives `gas_costs` and
-- `bc_latencies`.
pub record Submissions (P : Platform) : Type 1 where
  pub Relay : Type 0
  pub submit_items : List (Item P) → Exec (Relay × P.World) (List ℕ × List P.Float)
