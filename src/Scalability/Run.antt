-- ===== src/Scalability/Run.antt =====
-- ScalabilityRunner.run of scalability/scalability_runner.py, from its phases, on any blockchain.
use post_quantum_iot_auth.Prelude.{Text, ℕ, List, [], if◌then◌else◌, codes, length, map, ◌==◌}
use post_quantum_iot_auth.Python.{value_error, ok, raised, Exec, lift, call, on_second, ◌>>=◌}
use post_quantum_iot_auth.Platform.{Platform}
use post_quantum_iot_auth.Falcon.{Flags}
use post_quantum_iot_auth.Falcon.Crypto.{Libraries}
use post_quantum_iot_auth.Device.{IotDevice}
use post_quantum_iot_auth.Gateway.{new_gateway}
use post_quantum_iot_auth.Scalability.{Worker, Submissions, collect, new_worker, run_schedule}
use post_quantum_iot_auth.Scalability.Report.{Statistics, ScalabilityResult, metrics_of}

module _ (P : Platform) (T : Statistics P) where
  open P use {Float, World}

  abbrev pub elapsed : Float → Exec World Float
  elapsed start w =
      let (stop, w') = P.perf_counter w in (ok (P.mul (P.sub stop start) (P.float 1000)), w')

  module _ (S : Submissions P) where
    -- `run`, from the end of the first phase on, with the workers in the order in which their
    -- futures completed.
    unfoldable pub run_phase2 :
        Text → ℕ → ℕ → ℕ → Float → List (Worker P) → Exec (S.Relay × World) (ScalabilityResult P)
    run_phase2 backend device_count transactions_per_device concurrent_threads start completed = do
      c ← lift (
          collect P completed
            (record { failed_transactions = 0; gateway_latencies = []; verified_items = [] }))
      phase1_time ← on_second (elapsed start)
      start2 ← on_second (call P.perf_counter)
      costs ← S.submit_items c.verified_items
      phase2_time ← on_second (elapsed start2)
      on_second (
          metrics_of P T backend device_count transactions_per_device concurrent_threads c
            phase1_time costs phase2_time)

    -- `run` from its first phase on, with its devices, under a schedule of that phase; `order` is the
    -- order in which the futures complete. A pool without threads cannot be made.
    unfoldable pub run_phases :
        (L : Libraries P)
        → Flags
        → Text
        → ℕ
        → ℕ
        → ℕ
        → List IotDevice
        → List ℕ
        → (List (Worker P) → List (Worker P))
        → Exec (S.Relay × World) (ScalabilityResult P)
    run_phases L f backend payload_size transactions_per_device concurrent_threads devices schedule
          order (relay, w) =
        let (start, w₁) = P.perf_counter w in
        let (workers, (gateway, w₂)) =
          run_schedule P L f payload_size schedule
            (map (new_worker P transactions_per_device) devices)
            (new_gateway P (codes "gw-scale"), w₁) in
        if concurrent_threads == 0
        then (raised value_error, (relay, w₁))
        else run_phase2 backend (length devices) transactions_per_device concurrent_threads start
            (order workers) (relay, w₂)
