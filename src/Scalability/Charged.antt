-- ===== src/Scalability/Charged.antt =====
-- ScalabilityRunner.run of scalability/scalability_runner.py on the simulated blockchain: each submission
-- costs the same.
use post_quantum_iot_auth.Prelude.{
  ℕ, suc, ◌+◌, ◌*◌, ◌≤◌, ◌≡◌, true, false, List, [], ◌∷◌, arith, length, map, sum, All, codes,
}
use mathlib.Core.List.{Permᴰ}
use post_quantum_iot_auth.Python.{Exec, pure, lift, ◌>>=◌}
use post_quantum_iot_auth.Python.Loops.{Returns, Returns-bind, Returns-ok, Returns-weaken}
use post_quantum_iot_auth.Platform.{Platform}
use post_quantum_iot_auth.Falcon.{Flags}
use post_quantum_iot_auth.Falcon.Crypto.{Libraries}
use post_quantum_iot_auth.Device.{IotDevice}
use post_quantum_iot_auth.Gateway.{new_gateway}
use post_quantum_iot_auth.RelayNode.{RelayNode, Submitted, submit_verified_transaction}
use post_quantum_iot_auth.RelayNode.Submit.{submit_with_metrics}
use post_quantum_iot_auth.Runner.Simulated.{gas_and_latency}
use post_quantum_iot_auth.Runner.Rounds.{Signs}
use post_quantum_iot_auth.Scalability.{Worker, Item, run_schedule, new_worker}
use post_quantum_iot_auth.Scalability.Simulated.{submit_items, simulated_submissions}
use post_quantum_iot_auth.Scalability.Phases.{IsRanking, Charges, run_phases-Accounts}
use post_quantum_iot_auth.Scalability.Report.{Statistics}
use post_quantum_iot_auth.Scalability.Run.{run_phases}

module _ (P : Platform) where
  -- Every item is submitted at the gas of a verified one, with a latency.
  submit_items_lem :
      (items : List (Item P)) (s : RelayNode P × P.World)
      → Returns (submit_items P items s) (λ out _. sum out.0 ≡ 821563 * length items)
  unfolding submit_items
  submit_items_lem [] s = omega arith
  submit_items_lem (item ∷ items) (r, w) =
      let submit =
        submit_verified_transaction P item.device.did item.data_hash item.sig true true in
      let (m, returned, _, _, told) =
        submit_with_metrics P item.device.did item.data_hash item.sig true r w in
      let s = (submit (r, w)).1 in
      let Q = λ (out : List ℕ × List P.Float) (_ : RelayNode P × P.World).
        sum out.0 ≡ 821563 * suc (length items) in
      let more = submit_items P items in
      let join : ℕ × P.Float
          → List ℕ × List P.Float
          → Exec (RelayNode P × P.World) (List ℕ × List P.Float) =
        λ charge out. pure (charge.0 ∷ out.0, charge.1 ∷ out.1) in
      let later : Submitted P → Exec (RelayNode P × P.World) (List ℕ × List P.Float) =
        λ v. lift (gas_and_latency P v) >>= λ charge. more >>= join charge in
      Returns-ok submit later (r, w) Q returned
        (Returns-bind more (join (m.gas_used, m.total_latency_ms)) s Q (
          Returns-weaken (more s).0 (more s).1 (λ out _. sum out.0 ≡ 821563 * length items) _
            (λ out _ h. omega (arith, h, told.0)) (submit_items_lem items s)))

  -- Each transaction has cost 821563 gas.
  abbrev pub IsCharged : ℕ → ℕ → RelayNode P → Type 0
  IsCharged gas count relay = gas ≡ 821563 * count

  pub simulated_submissions-Charges : Charges P (simulated_submissions P) IsCharged
  simulated_submissions-Charges items gas count relay w charged =
      let out = submit_items P items (relay, w) in
      Returns-weaken out.0 out.1 (λ o _. sum o.0 ≡ 821563 * length items)
        (λ o t. IsCharged (gas + sum o.0) (count + length items) t.0)
        (λ o t h. omega (arith, h, charged)) (submit_items_lem items (relay, w))

  module _ (T : Statistics P) (ranking : IsRanking P T) (L : Libraries P) (f : Flags) where
    -- Under any schedule that lets every worker finish, and in whatever order their futures
    -- complete, if signing and verification return, there is a thread, and sorting keeps the length
    -- and a percentile's rank is below it, the phases of a run on the simulated blockchain return:
    -- each reading is submitted or counted as failed, and the gas is 821563 for each that is
    -- submitted.
    pub run_phases_lem :
        (size n threads : ℕ) (devices : List IotDevice) (schedule : List ℕ)
        (order : List (Worker P) → List (Worker P)) (relay : RelayNode P) (w : P.World)
        → 1 ≤ threads
        → All (Signs P L f false) devices
        → ((ws : List (Worker P)) → Permᴰ ws (order ws))
        → All
            (λ (v : Worker P). v.remaining ≡ 0)
            (run_schedule P L f size schedule
              (map (new_worker P n) devices)
              (new_gateway P (codes "gw-scale"), (P.perf_counter w).1)).0
        → Returns
            (run_phases P T
              (simulated_submissions P)
              L
              f
              (codes "simulated")
              size
              n
              threads
              devices
              schedule
              order
              (relay, w))
            (λ r _.
              (r.total_transactions + r.failed_transactions ≡ length devices * n)
              × (r.total_gas ≡ 821563 * r.total_transactions))
    run_phases_lem size n threads devices schedule order relay w some_thread signs reorders
          finished =
        let out =
          run_phases P T (simulated_submissions P) L f (codes "simulated") size n threads devices
            schedule order (relay, w) in
        Returns-weaken out.0 out.1 _ _ (λ r t a. (a.complete, a.ledger))
          (run_phases-Accounts P T ranking L f (simulated_submissions P) IsCharged
            simulated_submissions-Charges (codes "simulated") size n threads devices schedule order
            relay w (omega arith) some_thread signs reorders finished)
