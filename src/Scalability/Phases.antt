-- ===== src/Scalability/Phases.antt =====
-- The phases of ScalabilityRunner.run in scalability/scalability_runner.py, on any blockchain: they
-- return, whatever the schedule of the workers, and the counts add up.
use post_quantum_iot_auth.Prelude.{
  Text, ℕ, zero, suc, ◌+◌, ◌*◌, ◌≤◌, ◌<◌, ◌≡◌, refl, ◌∙◌, ap, sym, subst, false, List, [], ◌∷◌,
  arith, length, map, sum, All, ◌==◌, codes,
}
use mathlib.Core.List.{Permᴰ}
use post_quantum_iot_auth.Python.{ok, on_second, Exec, call, lift, ◌>>=◌}
use post_quantum_iot_auth.Python.Loops.{
  Returns_then, Returns_of, Returns, Returns-ok, Returns_value,
}
use post_quantum_iot_auth.Platform.{Platform}
use post_quantum_iot_auth.Falcon.{Flags}
use post_quantum_iot_auth.Falcon.Crypto.{Libraries}
use post_quantum_iot_auth.Device.{IotDevice}
use post_quantum_iot_auth.Gateway.{new_gateway}
use post_quantum_iot_auth.Runner.Rounds.{Signs}
use post_quantum_iot_auth.Scalability.{
  Worker, Item, Shared, Collected, Submissions, collect, run_schedule, new_worker,
}
use post_quantum_iot_auth.Scalability.Report.{
  Statistics, ScalabilityResult, item_at, rank, percentile, overall, metrics_of,
}
use post_quantum_iot_auth.Scalability.Run.{elapsed, run_phase2, run_phases}
use post_quantum_iot_auth.Scalability.Schedules.{
  IsDone, collect_lem, IsSound, run_schedule-IsSound, All-Permᴰ, length-Permᴰ,
}

pub item_at_lem {ℓ} :
    {A : Type ℓ} (n : ℕ) (xs : List A) → n < length xs → (x : A) × (item_at n xs ≡ ok x)
item_at_lem n [] h = absurd (omega arith)
item_at_lem zero (x ∷ xs) h = (x, refl)
item_at_lem (suc n) (x ∷ xs) h = item_at_lem n xs (omega arith)

module _ (P : Platform) where
  -- What a kind of blockchain keeps of the gas and of the number of the transactions.
  abbrev pub Ledger : Submissions P → Type 1
  Ledger S = ℕ → ℕ → S.Relay → Type 0

  -- The items are submitted, and the ledger then has their gas and their number too.
  abbrev pub Charges : (S : Submissions P) → Ledger S → Type 0
  Charges S J =
      (items : List (Item P)) (gas count : ℕ) (relay : S.Relay) (w : P.World)
      → J gas count relay
      → Returns (S.submit_items items (relay, w))
          (λ out t. J (gas + sum out.0) (count + length items) t.0)

  -- What the run relies on: sorting keeps the length, and the rank of a percentile below 100 of
  -- numbers that are there is one of theirs.
  pub record IsRanking (T : Statistics P) : Type 0 where
    pub sorted_size : (xs : List P.Float) → length (T.sorted xs) ≡ length xs
    pub half : (n : ℕ) → rank P T 50 (suc n) < suc n
    pub most : (n : ℕ) → rank P T 99 (suc n) < suc n

  module _ (T : Statistics P) (ranking : IsRanking T) where
    percentile_lem :
        (q : ℕ) (xs : List P.Float)
        → ((n : ℕ) → rank P T q (suc n) < suc n)
        → (v : P.Float) × (percentile P T q xs ≡ ok v)
    unfolding percentile
    percentile_lem q [] h = item_at_lem (rank P T q 1) (P.float 0 ∷ []) (h 0)
    percentile_lem q (x ∷ xs) h =
        let e = ranking.sorted_size (x ∷ xs) in
        item_at_lem (rank P T q (length (T.sorted (x ∷ xs)))) (T.sorted (x ∷ xs))
          (subst (λ n. rank P T q n < n) (sym e) (h (length xs)))

    metrics_of_lem :
        (backend : Text) (count n threads : ℕ) (c : Collected P) (t1 : P.Float)
        (costs : List ℕ × List P.Float) (t2 : P.Float) (w : P.World)
        → Returns (metrics_of P T backend count n threads c t1 costs t2 w) (λ r _.
          (r.total_transactions ≡ length c.verified_items)
          × (r.failed_transactions ≡ c.failed_transactions)
          × (r.total_gas ≡ sum costs.0)
          × (r.backend ≡ backend))
    unfolding metrics_of
    metrics_of_lem backend count n threads c t1 costs t2 w =
        let latencies = overall P c.verified_items costs.1 in
        rw
          (
            (percentile_lem 50 latencies ranking.half).1,
            (percentile_lem 99 latencies ranking.most).1,
            (percentile_lem 99 c.gateway_latencies ranking.most).1,
            (percentile_lem 99 costs.1 ranking.most).1,
          )
          (refl, refl, refl, refl)

    module _ (S : Submissions P) (J : Ledger S) (charges : Charges S J) (backend : Text) where
      -- A report on `n` readings: they are submitted or failed, and the ledger has what it says.
      pub record Accounts (n : ℕ) (r : ScalabilityResult P) (relay : S.Relay) : Type 0 where
        pub complete : r.total_transactions + r.failed_transactions ≡ n
        pub ledger : J r.total_gas r.total_transactions relay
        pub named : r.backend ≡ backend

      run_phase2_lem :
          (count n threads : ℕ) (start : P.Float) (ws : List (Worker P)) (relay : S.Relay)
          (w : P.World)
          → J 0 0 relay
          → All (IsDone P n) ws
          → Returns
              (run_phase2 P T S backend count n threads start ws (relay, w))
              (λ r t. Accounts (length ws * n) r t.0)
      unfolding run_phase2
      run_phase2_lem count n threads start ws relay w opened a =
          let Q =
            λ (r : ScalabilityResult P) (t : S.Relay × P.World). Accounts (length ws * n) r t.0 in
          let start_with : Collected P = record {
            failed_transactions = 0;
            gateway_latencies = [];
            verified_items = [];
          } in
          let (c, made, total) = collect_lem P n ws start_with a in
          let finish : P.Float
              → P.Float
              → Collected P
              → List ℕ × List P.Float
              → Exec (S.Relay × P.World) (ScalabilityResult P) =
            λ t1 start2 c' costs. on_second (elapsed P T start2) >>= λ t2.
            on_second (metrics_of P T backend count n threads c' t1 costs t2) in
          let rest : Collected P → Exec (S.Relay × P.World) (ScalabilityResult P) = λ c'.
            on_second (elapsed P T start) >>= λ t1. on_second (call P.perf_counter) >>= λ start2.
            S.submit_items c'.verified_items >>= finish t1 start2 c' in
          let (stop, w₁) = P.perf_counter w in
          let t1 = P.mul (P.sub stop start) (P.float 1000) in
          let (start2, w₂) = P.perf_counter w₁ in
          Returns-ok (lift (collect P ws start_with)) rest (relay, w) Q made
            (Returns_then (S.submit_items c.verified_items) (finish t1 start2 c) (relay, w₂)
              (λ costs t. J (0 + sum costs.0) (0 + length c.verified_items) t.0) Q
              (charges c.verified_items 0 0 relay w₂ opened)
              (λ costs (node, v) booked.
                let (stop2, v₁) = P.perf_counter v in
                let t2 = P.mul (P.sub stop2 start2) (P.float 1000) in
                let m = metrics_of P T backend count n threads c t1 costs t2 in
                let (r, is, h) =
                  Returns_value (m v₁).0 (m v₁).1 _
                    (metrics_of_lem backend count n threads c t1 costs t2 v₁) in
                let gas : 0 + sum costs.0 ≡ r.total_gas = omega (arith, h.2) in
                let sent : 0 + length c.verified_items ≡ r.total_transactions =
                  omega (arith, h.0) in
                let ledger : J r.total_gas r.total_transactions node =
                  subst (λ g. J g r.total_transactions node) gas
                    (subst (λ k. J (0 + sum costs.0) k node) sent booked) in
                Returns_of (m v₁).0 (node, (m v₁).1) Q is
                  (record {
                    complete = omega (arith, h.0, h.1, total);
                    ledger = ledger;
                    named = h.3;
                  })))

    module _ (L : Libraries P) (f : Flags) where
      new_worker-IsSound :
          (n : ℕ) (devices : List IotDevice)
          → All (Signs P L f false) devices
          → All (IsSound P L f n) (map (new_worker P n) devices)
            × (length (map (new_worker P n) devices) ≡ length devices)
      unfolding new_worker
      new_worker-IsSound n [] a = (tt, refl)
      new_worker-IsSound n (d ∷ devices) (signs, a) =
          let (b, e) = new_worker-IsSound n devices a in
          ((record { fine = refl; balance = omega arith; signs = signs }, b), ap suc e)

      IsSound-IsDone :
          (n : ℕ) (ws : List (Worker P))
          → All (IsSound P L f n) ws
          → All (λ (w : Worker P). w.remaining ≡ 0) ws
          → All (IsDone P n) ws
      IsSound-IsDone n [] a z = tt
      IsSound-IsDone n (w ∷ ws) (h, a) (e, z) =
          (record { fine = h.fine; all = omega (arith, h.balance, e) }, IsSound-IsDone n ws a z)

      module _ (S : Submissions P) (J : Ledger S) (charges : Charges S J) (backend : Text) where
        -- Under any schedule that lets every worker finish, and in whatever order their futures
        -- complete, the run returns with its books in order.
        pub run_phases-Accounts :
            (size n threads : ℕ) (devices : List IotDevice) (schedule : List ℕ)
            (order : List (Worker P) → List (Worker P)) (relay : S.Relay) (w : P.World)
            → J 0 0 relay
            → 1 ≤ threads
            → All (Signs P L f false) devices
            → ((ws : List (Worker P)) → Permᴰ ws (order ws))
            → All
                (λ (v : Worker P). v.remaining ≡ 0)
                (run_schedule P L f size schedule
                  (map (new_worker P n) devices)
                  (new_gateway P (codes "gw-scale"), (P.perf_counter w).1)).0
            → Returns
                (run_phases P T S L f backend size n threads devices schedule order (relay, w))
                (λ r t. Accounts S J charges backend (length devices * n) r t.0)
        unfolding run_phases
        run_phases-Accounts size n threads devices schedule order relay w opened some_thread signs
              reorders finished =
            let (start, w₁) = P.perf_counter w in
            let (sound, same) = new_worker-IsSound n devices signs in
            let shared : Shared P = (new_gateway P (codes "gw-scale"), w₁) in
            let started = map (new_worker P n) devices in
            let (workers, (gateway, w₂)) = run_schedule P L f size schedule started shared in
            let (kept, count) = run_schedule-IsSound P L f size n schedule started shared sound in
            let done =
              All-Permᴰ (IsDone P n) (reorders workers) (IsSound-IsDone n workers kept finished) in
            let e : length (order workers) ≡ length devices =
              sym (length-Permᴰ (reorders workers)) ∙ count ∙ same in
            let out =
              run_phase2 P T S backend (length devices) n threads start (order workers)
                (relay, w₂) in
            let busy : (threads == 0) ≡ false = ground arith in
            rw busy (
              subst (λ k. Returns out (λ r t. Accounts S J charges backend (k * n) r t.0)) e
                (run_phase2_lem S J charges backend (length devices) n threads start (order workers)
                  relay w₂ opened done))
