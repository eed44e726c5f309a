-- ===== src/Scalability/Report.antt =====
-- The metrics of ScalabilityRunner.run in scalability/scalability_runner.py.
use post_quantum_iot_auth.Prelude.{Text, ℕ, zero, suc, List, [], ◌∷◌, if◌then◌else◌, length, sum}
use post_quantum_iot_auth.Python.{index_error, Result, ok, raised, Exec, pure, lift, ◌>>=◌}
use post_quantum_iot_auth.Platform.{Platform}
use post_quantum_iot_auth.Runner.{ratio_or_zero}
use post_quantum_iot_auth.Scalability.{Item, Collected}

-- `statistics.mean`, `round` and `sorted`
pub record Statistics (P : Platform) : Type 0 where
  pub mean : List P.Float → P.Float
  pub round : P.Float → ℕ → P.Float
  pub sorted : List P.Float → List P.Float

-- `xs[n]`
abbrev pub item_at {ℓ} : {A : Type ℓ} → ℕ → List A → Result A
item_at n [] = raised index_error
item_at zero (x ∷ xs) = ok x
item_at (suc n) (x ∷ xs) = item_at n xs

module _ (P : Platform) where
  open P use {Float, World}

  -- `zip` of the verification times and the latencies of the submissions, added up
  abbrev pub overall : List (Item P) → List Float → List Float
  overall [] ls = []
  overall (item ∷ items) [] = []
  overall (item ∷ items) (l ∷ ls) = P.add item.verify_time_ms l ∷ overall items ls

  -- `n / (ms / 1000) if ms > 0 else 0`
  abbrev pub per_second : ℕ → Float → Float
  per_second n ms =
      if P.lt (P.float 0) ms then P.div (P.float n) (P.div ms (P.float 1000)) else P.float 0

  -- `ScalabilityResult`
  pub record ScalabilityResult : Type 0 where
    pub device_count : ℕ
    pub transactions_per_device : ℕ
    pub total_transactions : ℕ
    pub total_time_ms : Float
    pub throughput_tps : Float
    pub avg_latency_ms : Float
    pub p50_latency_ms : Float
    pub p99_latency_ms : Float
    pub total_gas : ℕ
    pub avg_gas_per_tx : Float
    pub failed_transactions : ℕ
    pub concurrent_threads : ℕ
    pub backend : Text
    pub gateway_verify_tps : Float
    pub gateway_avg_latency_ms : Float
    pub gateway_p99_latency_ms : Float
    pub blockchain_submit_tps : Float
    pub blockchain_avg_latency_ms : Float
    pub blockchain_p99_latency_ms : Float

  module _ (T : Statistics P) where
    open T use {mean, round, sorted}

    -- `statistics.mean(xs) if xs else 0`
    abbrev pub mean_or_zero : List Float → Float
    mean_or_zero [] = P.float 0
    mean_or_zero (x ∷ xs) = mean (x ∷ xs)

    -- `sorted(xs) if xs else [0]`
    abbrev pub sorted_or_zero : List Float → List Float
    sorted_or_zero [] = P.float 0 ∷ []
    sorted_or_zero (x ∷ xs) = sorted (x ∷ xs)

    -- `int(len(xs) * q)`; `q` is a number of hundredths.
    abbrev pub rank : ℕ → ℕ → ℕ
    rank hundredths n = P.trunc (P.mul (P.float n) (P.div (P.float hundredths) (P.float 100)))

    unfoldable pub percentile : ℕ → List Float → Result Float
    percentile hundredths xs = let s = sorted_or_zero xs in item_at (rank hundredths (length s)) s

    -- The metrics, on the two phases and their times.
    unfoldable pub metrics_of :
        Text
        → ℕ
        → ℕ
        → ℕ
        → Collected P
        → Float
        → List ℕ × List Float
        → Float
        → Exec World ScalabilityResult
    metrics_of backend device_count transactions_per_device concurrent_threads c phase1_time
          (gas_costs, bc_latencies) phase2_time =
        do
          let total_transactions = length c.verified_items
          let total_time = P.add phase1_time phase2_time
          let latencies = overall c.verified_items bc_latencies
          p50 ← lift (percentile 50 latencies)
          p99 ← lift (percentile 99 latencies)
          gw_p99 ← lift (percentile 99 c.gateway_latencies)
          bc_p99 ← lift (percentile 99 bc_latencies)
          pure (record {
            device_count = device_count;
            transactions_per_device = transactions_per_device;
            total_transactions = total_transactions;
            total_time_ms = total_time;
            throughput_tps = per_second total_transactions total_time;
            avg_latency_ms = mean_or_zero latencies;
            p50_latency_ms = p50;
            p99_latency_ms = p99;
            total_gas = sum gas_costs;
            avg_gas_per_tx = ratio_or_zero P (sum gas_costs) (length gas_costs);
            failed_transactions = c.failed_transactions;
            concurrent_threads = concurrent_threads;
            backend = backend;
            gateway_verify_tps = round (per_second (length c.gateway_latencies) phase1_time) 1;
            gateway_avg_latency_ms = round (mean_or_zero c.gateway_latencies) 2;
            gateway_p99_latency_ms = round gw_p99 2;
            blockchain_submit_tps = round (per_second (length bc_latencies) phase2_time) 1;
            blockchain_avg_latency_ms = round (mean_or_zero bc_latencies) 2;
            blockchain_p99_latency_ms = round bc_p99 2;
          })
