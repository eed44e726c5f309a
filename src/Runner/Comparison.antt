-- ===== src/Runner/Comparison.antt =====
-- `ComparisonRunner(...)`, `run_comparison` and their helpers in relay_system/runner.py, on either
-- blockchain.
use post_quantum_iot_auth.Prelude.{
  Bool, ℕ, zero, suc, ◌+◌, ◌-◌, Option, none, some, List, [], ◌∷◌, ◌++◌, Text, codes, length, leb,
  if◌then◌else◌, map, replicate,
}
use post_quantum_iot_auth.Python.{Result, ok, raised, index_error, Exec, pure, lift, ◌>>=◌}
use post_quantum_iot_auth.Python.Text.{decimal}
use post_quantum_iot_auth.Platform.{Platform}
use post_quantum_iot_auth.Falcon.{Flags}
use post_quantum_iot_auth.Falcon.Crypto.{Libraries}
use post_quantum_iot_auth.Device.{IotDevice, new_device}
use post_quantum_iot_auth.Chain.{gas_theoretical_falcon}
use post_quantum_iot_auth.Runner.{RelayReport}
use post_quantum_iot_auth.Hardhat.Client.{Web3}
use post_quantum_iot_auth.Runner.Direct.{DirectReport}
use post_quantum_iot_auth.Runner.Paths.{PathResult, run_direct_path, run_relay_path}

-- `f"{i:04d}"`
abbrev pub four_digits : ℕ → Text
four_digits i = let t = decimal i in replicate (4 - length t) 48 ++ t

-- `pairs[-1]`
abbrev pub last_of {ℓ} : {A : Type ℓ} → List A → Result A
last_of [] = raised index_error
last_of (x ∷ []) = ok x
last_of (x ∷ y ∷ xs) = last_of (y ∷ xs)

module _ (P : Platform) (X : Web3 P) (L : Libraries P) (f : Flags) where
  open P use {Float, World}

  -- The devices from number `i` on.
  unfoldable pub devices_from : ℕ → ℕ → Exec World (List IotDevice)
  devices_from i zero = pure []
  devices_from i (suc n) = do
    device ← new_device P L f (codes "device-" ++ four_digits i)
    devices ← devices_from (i + 1) n
    pure (device ∷ devices)

  -- `_create_devices`
  unfoldable pub create_devices : ℕ → Exec World (List IotDevice)
  create_devices device_count = devices_from 0 device_count

  -- A quotient, or `float("inf")`.
  pub data Ratio : Type 0 where
    finite : Float → Ratio
    infinite : Ratio

  -- `a / b if b > 0 else float("inf")`
  abbrev pub ratio : Float → Float → Ratio
  ratio a b = if P.lt (P.float 0) b then finite (P.div a b) else infinite

  -- The deviations that several rounds add.
  pub record Deviations : Type 0 where
    pub direct_gas_std : Float
    pub direct_latency_std : Float
    pub relay_gas_std : Float
    pub relay_latency_std : Float
    pub rounds : ℕ

  pub record Comparison : Type 0 where
    pub direct_ecdsa : PathResult P (DirectReport P)
    pub relay_falcon : PathResult P (RelayReport P)
    pub relay_vs_falcon_ratio : Ratio
    pub relay_vs_ecdsa_gas_ratio : Ratio
    pub latency_ratio : Ratio
    pub deviations : Option Deviations

  abbrev pub Round : Type 0
  Round = PathResult P (DirectReport P) × PathResult P (RelayReport P)

  -- Both paths once.
  unfoldable pub run_round : Bool → ℕ → ℕ → ℕ → List IotDevice → Exec World Round
  run_round use_real payload_size batch_size transactions_per_device devices = do
    direct ← run_direct_path P X use_real payload_size transactions_per_device devices
    relay ← run_relay_path P X L f use_real payload_size batch_size transactions_per_device devices
    pure (direct, relay)

  -- The loop over the rounds.
  unfoldable pub run_rounds : ℕ → Exec World Round → Exec World (List Round)
  run_rounds zero m = pure []
  run_rounds (suc k) m = do first ← m; rest ← run_rounds k m; pure (first ∷ rest)

  -- the dictionary `result`
  unfoldable pub compare : Option Deviations → Round → Comparison
  compare deviations (direct, relay) = record {
    direct_ecdsa = direct;
    relay_falcon = relay;
    relay_vs_falcon_ratio = ratio (P.float gas_theoretical_falcon) relay.report.avg_gas_per_tx;
    relay_vs_ecdsa_gas_ratio = ratio relay.report.avg_gas_per_tx direct.report.avg_gas_per_tx;
    latency_ratio = ratio direct.report.avg_latency_ms relay.report.avg_latency_ms;
    deviations = deviations;
  }

  -- `statistics.stdev`
  module _ (stdev : List Float → Float) where
    abbrev pub deviations_of : ℕ → List Round → Deviations
    deviations_of rounds results = record {
      direct_gas_std = stdev (map (λ (r : Round). r.0.report.avg_gas_per_tx) results);
      direct_latency_std = stdev (map (λ (r : Round). r.0.report.avg_latency_ms) results);
      relay_gas_std = stdev (map (λ (r : Round). r.1.report.avg_gas_per_tx) results);
      relay_latency_std = stdev (map (λ (r : Round). r.1.report.avg_latency_ms) results);
      rounds = rounds;
    }

    -- The last round stands for all; it comes with the deviations over more than one.
    abbrev pub single : Exec World Round → Exec World Comparison
    single m = do last ← m; pure (compare none last)

    abbrev pub several : ℕ → Exec World Round → Exec World Comparison
    several rounds m = do
      results ← run_rounds rounds m
      last ← lift (last_of results)
      pure (compare (some (deviations_of rounds results)) last)

    unfoldable pub run_comparison : Bool → ℕ → ℕ → ℕ → ℕ → List IotDevice → Exec World Comparison
    run_comparison use_real payload_size batch_size transactions_per_device rounds devices =
        let m = run_round use_real payload_size batch_size transactions_per_device devices in
        if leb rounds 1 then single m else several rounds m

    -- `ComparisonRunner(device_count, …).run_comparison(rounds)`
    unfoldable pub create_and_compare : Bool → ℕ → ℕ → ℕ → ℕ → ℕ → Exec World Comparison
    create_and_compare use_real payload_size batch_size transactions_per_device rounds
          device_count =
        do
          devices ← create_devices device_count
          run_comparison use_real payload_size batch_size transactions_per_device rounds devices
