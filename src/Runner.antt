-- ===== src/Runner.antt =====
-- The relay-assisted path of ComparisonRunner in relay_system/runner.py, on any kind of blockchain.
pub mod Simulated
pub mod Charges
pub mod Rounds
pub mod Books
pub mod Relayed
pub mod Direct
pub mod Receipted
pub mod Comparison
pub mod Repeated
pub mod Compared
pub mod Backend
pub mod RealBatch
pub mod Recorded
pub mod Tally
pub mod Paths
pub mod OnHardhat
pub mod RealComparison
pub mod Fallback
pub mod Registration
pub mod Setup
use post_quantum_iot_auth.Prelude.{
  ℕ, ◌+◌, Bool, true, false, Option, none, some, List, [], ◌∷◌, ◌++◌, if◌then◌else◌, Bytes, Text,
  length, leb, sum, codes, ◌==◌,
}
use post_quantum_iot_auth.Python.{
  Result, ok, raised, type_error, unbound_local, Exec, pure, call, lift, ◌>>=◌, ◌>>◌,
}
use post_quantum_iot_auth.Python.Loops.{repeat, for_each}
use post_quantum_iot_auth.Python.Text.{encode}
use post_quantum_iot_auth.Platform.{Platform}
use post_quantum_iot_auth.Falcon.{Flags}
use post_quantum_iot_auth.Falcon.Crypto.{Libraries}
use post_quantum_iot_auth.Device.{IotDevice, generate_sensor_data, sign_data}
use post_quantum_iot_auth.Gateway.{Gateway, GatewayResult, new_gateway, relay_data}
use post_quantum_iot_auth.Chain.{new_blockchain}
use post_quantum_iot_auth.RelayNode.{
  RelayNode, Submitted, hash_only, metrics, new_relay, submit_verified_transaction,
}

-- An element of `pending_items`.
pub record Pending : Type 0 where
  pub device_did : Text
  pub data_hash : Text
  pub data_hash_bytes : Bytes
  pub did_hash_bytes : Bytes
  pub signature_bytes : Bytes
  pub did_public_key : Bytes
  pub signature_size : ℕ
  pub verified : Bool

-- What `run_relay_path` does differently on a real and on the simulated blockchain: the object that
-- batches go to, `bc` or `relay`, and the branch of `_submit_batch` for it.
pub record Batches (P : Platform) : Type 1 where
  pub Relay : Type 0
  pub submit_batch : P.Float → List Pending → Exec (Relay × P.World) (ℕ × List P.Float)

module _ (P : Platform) where
  open P use {Float, World}

  -- `pending_items.append({…})`, for a reading that the gateway has verified
  unfoldable pub pending_item : IotDevice → Bytes → Bytes → Text → Pending
  pending_item device payload sig data_hash = record {
    device_did = device.did;
    data_hash = data_hash;
    data_hash_bytes = P.sha256 payload;
    did_hash_bytes = P.sha256 (encode device.did);
    signature_bytes = sig;
    did_public_key = device.keypair.public_key;
    signature_size = length sig;
    verified = true;
  }

  -- Python's `sum` over floats.
  abbrev pub float_sum : Float → List Float → Float
  float_sum acc [] = acc
  float_sum acc (x ∷ xs) = float_sum (P.add acc x) xs

  -- `sum(xs) / len(xs) if xs else 0`
  abbrev pub float_mean : List Float → Float
  float_mean [] = P.float 0
  float_mean (x ∷ xs) = P.div (float_sum (P.float 0) (x ∷ xs)) (P.float (length (x ∷ xs)))

  -- `a / b if b else 0`, of two integers
  abbrev pub ratio_or_zero : ℕ → ℕ → Float
  ratio_or_zero a b = if b == 0 then P.float 0 else P.div (P.float a) (P.float b)

  -- The entries of the result that are computed.
  pub record RelayReport : Type 0 where
    pub total_transactions : ℕ
    pub total_latency_ms : Float
    pub avg_latency_ms : Float
    pub total_gas : ℕ
    pub avg_gas_per_tx : Float
    pub wall_time_ms : Float
    pub avg_verify_time_ms : Float
    pub failed_verifications : ℕ

  module _ (B : Batches P) where
    -- The local variables of `run_relay_path`, its objects and the world. `verify_latency` has no value
    -- before the first round.
    pub record RelayRun : Type 0 where
      pub gateway : Gateway P
      pub relay : B.Relay
      pub world : World
      pub pending : List Pending
      pub verify_latency : Option Float
      pub total_transactions : ℕ
      pub total_gas : ℕ
      pub failed_verifications : ℕ
      pub verify_latencies : List Float
      pub all_latencies : List Float

    abbrev pub with_world : {A : Type 0} → Exec World A → Exec RelayRun A
    with_world m r = let (a, w) = m r.world in (a, record r { world = w })

    abbrev pub with_gateway : {A : Type 0} → Exec (Gateway P × World) A → Exec RelayRun A
    with_gateway m r =
        let (a, (g, w)) = m (r.gateway, r.world) in (a, record r { gateway = g; world = w })

    abbrev pub with_relay : {A : Type 0} → Exec (B.Relay × World) A → Exec RelayRun A
    with_relay m r =
        let (a, (n, w)) = m (r.relay, r.world) in (a, record r { relay = n; world = w })

    -- The variable `verify_latency`, which has to have a value.
    abbrev pub bound_or_raise : Option Float → Exec RelayRun Float
    bound_or_raise none r = (raised unbound_local, r)
    bound_or_raise (some l) r = (ok l, r)

    abbrev pub read_latency : Exec RelayRun Float
    read_latency r = bound_or_raise r.verify_latency r

    -- The totals after a batch, which then is empty. The list `all_gas_costs` is never read.
    abbrev pub book_batch : ℕ × List Float → Exec RelayRun Unit
    book_batch (batch_gas, latencies) r = (
      ok tt,
      record r {
        total_transactions = r.total_transactions + length r.pending;
        total_gas = r.total_gas + batch_gas;
        all_latencies = r.all_latencies ++ latencies;
        pending = [];
      },
    )

    -- A submission of all that is pending.
    unfoldable pub submit_pending : Exec RelayRun Unit
    submit_pending r =
        (do
          verify_latency ← read_latency
          booked ← with_relay (B.submit_batch verify_latency r.pending)
          book_batch booked)
          r

    unfoldable pub submit_if_full : ℕ → Exec RelayRun Unit
    submit_if_full batch_size r =
        if leb batch_size (length r.pending) then submit_pending r else (ok tt, r)

    abbrev pub add_pending : Pending → Exec RelayRun Unit
    add_pending item r = (ok tt, record r { pending = r.pending ++ item ∷ [] })

    abbrev pub count_failure : Exec RelayRun Unit
    count_failure r = (ok tt, record r { failed_verifications = r.failed_verifications + 1 })

    abbrev pub note_latency : Float → Exec RelayRun Unit
    note_latency latency r = (
      ok tt,
      record r {
        verify_latency = some latency;
        verify_latencies = r.verify_latencies ++ latency ∷ [];
      },
    )

    -- what happens to a reading that the gateway has looked at
    unfoldable pub accept_or_fail :
        ℕ → IotDevice → Bytes → Bytes → GatewayResult P → Exec RelayRun Unit
    accept_or_fail batch_size device payload sig result =
        if result.verified
        then (do
          add_pending (pending_item device payload sig result.data_hash)
          submit_if_full batch_size)
        else count_failure

    abbrev pub flush_items : List Pending → Exec RelayRun Unit
    flush_items [] r = (ok tt, r)
    flush_items (item ∷ items) r = submit_pending r

    -- `if pending_items: …`, after the loops
    unfoldable pub flush : Exec RelayRun Unit
    flush r = flush_items r.pending r

    -- The objects and variables before the loops.
    unfoldable pub new_relay_run : B.Relay → World → RelayRun
    new_relay_run relay w = record {
      gateway = new_gateway P (codes "gw-relay-test");
      relay = relay;
      world = w;
      pending = [];
      verify_latency = none;
      total_transactions = 0;
      total_gas = 0;
      failed_verifications = 0;
      verify_latencies = [];
      all_latencies = [];
    }

    -- the end of a round, from the gateway's answer on
    abbrev pub finish_round :
        ℕ → IotDevice → Bytes → Bytes → Float → GatewayResult P → Exec RelayRun Unit
    finish_round batch_size device payload sig t0 result = do
      t1 ← with_world (call P.perf_counter)
      note_latency (P.mul (P.sub t1 t0) (P.float 1000))
      accept_or_fail batch_size device payload sig result

    module _ (L : Libraries P) (f : Flags) where
      -- the part of a round that follows the signature
      abbrev pub verify_and_queue : ℕ → IotDevice → Bytes → Bytes → Exec RelayRun Unit
      verify_and_queue batch_size device payload sig = do
        t0 ← with_world (call P.perf_counter)
        result ← with_gateway (relay_data P L f device.did device.keypair.public_key payload sig)
        finish_round batch_size device payload sig t0 result

      -- One round of the inner loop.
      unfoldable pub relay_round : ℕ → ℕ → IotDevice → Exec RelayRun Unit
      relay_round payload_size batch_size device = do
        payload ← with_world (call (generate_sensor_data P device payload_size))
        sig ← with_world (sign_data P L f device payload)
        verify_and_queue batch_size device payload sig

      unfoldable pub relay_loops : ℕ → ℕ → ℕ → List IotDevice → Exec RelayRun Unit
      relay_loops payload_size batch_size transactions_per_device devices = do
        for_each devices
            (λ device. repeat transactions_per_device (relay_round payload_size batch_size device))
        flush

    -- the report on the variables after the loops; the clock was read at `start`
    unfoldable pub report : Float → RelayRun → RelayReport × World
    report start r =
        let (stop, w) = P.perf_counter r.world in
        (
          record {
            total_transactions = r.total_transactions;
            total_latency_ms = float_sum (P.float 0) r.all_latencies;
            avg_latency_ms = float_mean r.all_latencies;
            total_gas = r.total_gas;
            avg_gas_per_tx = ratio_or_zero r.total_gas r.total_transactions;
            wall_time_ms = P.mul (P.sub stop start) (P.float 1000);
            avg_verify_time_ms = float_mean r.verify_latencies;
            failed_verifications = r.failed_verifications;
          },
          w,
        )

    abbrev pub finish :
        Float → Result (Unit {0}) × RelayRun → Result RelayReport × (B.Relay × World)
    finish start (ok _, r) = let (result, w) = report start r in (ok result, (r.relay, w))
    finish start (raised e, r) = (raised e, (r.relay, r.world))

    -- `run_relay_path` from the start of the clock on
    unfoldable pub relay_path :
        (L : Libraries P) → Flags → ℕ → ℕ → ℕ → List IotDevice → Exec (B.Relay × World) RelayReport
    relay_path L f payload_size batch_size transactions_per_device devices (relay, w) =
        let (start, w₁) = P.perf_counter w in
        finish start (
          relay_loops L f payload_size batch_size transactions_per_device devices
            (new_relay_run relay w₁))
