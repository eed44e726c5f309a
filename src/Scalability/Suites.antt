-- ===== src/Scalability/Suites.antt =====
-- ScalabilityRunner.run and run_scalability_suite of scalability/scalability_runner.py in the simulation
-- backend, from the creation of the devices on, on either blockchain.
use post_quantum_iot_auth.Prelude.{
  ℕ, ◌+◌, ◌*◌, ◌≤◌, ◌≡◌, refl, sym, subst, ◌∙◌, Bool, true, false, Option, List, [], ◌∷◌, arith,
  codes, length, All,
}
use post_quantum_iot_auth.Python.{Result, ok, raised, pure, on_second, ◌>>=◌, ◌>>◌}
use post_quantum_iot_auth.Python.Loops.{
  Returns, Returns-weaken, Returns_then, Returns_state, Returns_value, Returns-ok, Returns_move,
}
use post_quantum_iot_auth.Platform.{Platform, IsDocumented}
use post_quantum_iot_auth.Falcon.{Flags, simulation, get_backend}
use post_quantum_iot_auth.Falcon.Crypto.{Libraries, IsEd25519}
use post_quantum_iot_auth.Device.{IotDevice}
use post_quantum_iot_auth.Chain.{new_blockchain, get_or}
use post_quantum_iot_auth.RelayNode.{new_relay}
use post_quantum_iot_auth.Hardhat.Client.{Web3}
use post_quantum_iot_auth.Hardhat.{State, deploy_contracts}
use post_quantum_iot_auth.Hardhat.Mining.{IsMining}
use post_quantum_iot_auth.Runner.Backend.{hardhat, create_blockchain, register_device_dids}
use post_quantum_iot_auth.Runner.Setup.{
  IsDeploying, IsFresh, create_blockchain-IsFresh, deploy_contracts-IsFresh,
}
use post_quantum_iot_auth.Runner.Registration.{
  register_device_dids_lem, register_device_dids-Frames,
}
use post_quantum_iot_auth.Runner.Recorded.{IsRecorded, IsFresh-IsRecorded}
use post_quantum_iot_auth.Runner.Tally.{Costs, IsRecorded-Costs}
use post_quantum_iot_auth.Runner.Relayed.{IsSimulated}
use post_quantum_iot_auth.Scalability.{suite_threads}
use post_quantum_iot_auth.Scalability.Report.{Statistics, ScalabilityResult}
use post_quantum_iot_auth.Scalability.Run.{run_phases}
use post_quantum_iot_auth.Scalability.Simulated.{simulated_submissions}
use post_quantum_iot_auth.Scalability.Real.{real_submissions}
use post_quantum_iot_auth.Scalability.Phases.{IsRanking, run_phases-Accounts}
use post_quantum_iot_auth.Scalability.Charged.{IsCharged, simulated_submissions-Charges}
use post_quantum_iot_auth.Scalability.Recorded.{real_submissions-Charges}
use post_quantum_iot_auth.Scalability.Finished.{
  IsFair, run_schedule_finished, devices_from-IsSimulated, devices_signing,
}
use post_quantum_iot_auth.Scalability.Threads.{suite_threads_lem}
use post_quantum_iot_auth.Scalability.Suite.{
  run_on, Timing, devices_from, run_on_hardhat, run_on_simulated, run, run_counts,
  run_scalability_suite,
}

-- `G` holds of each count and its result.
abbrev pub Each {ℓ} : {A : Type ℓ} → (ℕ → A → Type 0) → List ℕ → List A → Type 0
Each G [] [] = Unit
Each G [] (r ∷ rs) = ⊥
Each G (c ∷ cs) [] = ⊥
Each G (c ∷ cs) (r ∷ rs) = G c r × Each G cs rs

module _ (P : Platform) (X : Web3 P) (L : Libraries P) (f : Flags) (T : Statistics P) where
  -- A run of `k` devices with `n` readings each on the simulated blockchain: each reading is submitted,
  -- at 821563 gas, or counted as failed.
  abbrev pub IsSimulatedRun : ℕ → ℕ → ScalabilityResult P → Type 0
  IsSimulatedRun n k r =
      (r.backend ≡ codes "simulated")
      × (r.total_transactions + r.failed_transactions ≡ k * n)
      × (r.total_gas ≡ 821563 * r.total_transactions)

  -- The result of a run of `k` devices with `n` readings each on a real blockchain, when it ends in a
  -- state of the backend: each reading is a transaction there, or counted as failed.
  abbrev IsBookedRun : ℕ → ℕ → ScalabilityResult P → State P X → Type 0
  IsBookedRun n k r s =
      (r.backend ≡ codes "hardhat")
      × (r.total_transactions + r.failed_transactions ≡ k * n)
      × IsRecorded P X r.total_gas r.total_transactions s.0

  -- `r` is what a run of `k` devices with `n` readings each has returned on a real blockchain: from a
  -- world, the backend that was created is `before`, and the run has gone from there to `after`. Each
  -- reading is counted as failed or is a transaction of `after`, and the gas is that of the receipts
  -- of these transactions, unless the node gave two of them the same hash.
  pub record IsRealRun (t : Timing P) (size threads n k : ℕ) (r : ScalabilityResult P)
      : Type 0 where
    pub start : P.World
    pub before : State P X
    pub after : State P X
    pub created : create_blockchain P X true start ≡ (hardhat before.0, before.1)
    pub ran : run_on_hardhat P L f X T t size n threads k before ≡ (ok r, after)
    pub named : r.backend ≡ codes "hardhat"
    pub complete : r.total_transactions + r.failed_transactions ≡ k * n
    pub costs : Costs P X r.total_gas r.total_transactions after.0

  IsBookedRun-IsRealRun :
      (t : Timing P) (size threads n k : ℕ) (start : P.World) (before : State P X)
      → create_blockchain P X true start ≡ (hardhat before.0, before.1)
      → (out : Result (ScalabilityResult P) × State P X)
      → run_on_hardhat P L f X T t size n threads k before ≡ out
      → Returns out (λ r s. IsBookedRun n k r s)
      → Returns out (λ r _. IsRealRun t size threads n k r)
  IsBookedRun-IsRealRun t size threads n k start before created (ok r, s) ran
        (name, all, recorded) =
      record {
        start = start;
        before = before;
        after = s;
        created = created;
        ran = ran;
        named = name;
        complete = all;
        costs = IsRecorded-Costs P X r.total_gas r.total_transactions s.0 s.1 recorded;
      }
  IsBookedRun-IsRealRun t size threads n k start before created (raised e, s) ran h = absurd h

  run_counts-Each :
      (G : ℕ → ScalabilityResult P → Type 0) (timings : ℕ → ℕ → Timing P) (n : ℕ) (asked : Option ℕ)
      (use_real : Bool)
      → ((k c : ℕ) (w : P.World)
          → 1 ≤ c
          → Returns
              (run P L f X T (timings k c) 256 n (suite_threads asked c) c use_real w)
              (λ r _. G c r))
      → (k : ℕ) (counts : List ℕ) (w : P.World) → All (λ c. 1 ≤ c) counts
      → Returns
          (run_counts P L f X T timings n asked use_real k counts w)
          (λ rs _. Each G counts rs)
  unfolding run_counts
  run_counts-Each G timings n asked use_real good k [] w a = tt
  run_counts-Each G timings n asked use_real good k (c ∷ cs) w (one, a) =
      let more = run_counts P L f X T timings n asked use_real (k + 1) cs in
      let Q = λ (rs : List (ScalabilityResult P)) (_ : P.World). Each G (c ∷ cs) rs in
      Returns_then (run P L f X T (timings k c) 256 n (suite_threads asked c) c use_real)
        (λ r. more >>= λ rs. pure (r ∷ rs)) w (λ r _. G c r) Q (good k c w one)
        (λ r v g.
          Returns_then more (λ rs. pure (r ∷ rs)) v (λ rs _. Each G cs rs) Q
            (run_counts-Each G timings n asked use_real good (k + 1) cs v a) (λ rs _ h. (g, h)))

  module _ (ranking : IsRanking P T) (doc : IsDocumented P) (ed : IsEd25519 P L)
      (sim : get_backend f ≡ simulation) (t : Timing P) (size n threads k : ℕ)
      (some_thread : 1 ≤ threads) (fair : IsFair P n k t) where
    pub run-IsSimulatedRun :
        (w : P.World)
        → Returns (run P L f X T t size n threads k false w) (λ r _. IsSimulatedRun n k r)
    unfolding run run_on_simulated create_blockchain
    run-IsSimulatedRun w =
        let S = simulated_submissions P in
        let name = codes "simulated" in
        let relay = new_relay P (codes "relay-scale") (new_blockchain P 42) in
        let create = on_second (devices_from P L f 0 k) in
        let phases =
          λ (ds : List IotDevice). run_phases P T S L f name size n threads ds t.schedule t.order in
        let made = devices_from P L f 0 k w in
        let (ds, returned, (length_is, a)) =
          Returns_value made.0 made.1 _ (devices_from-IsSimulated P L f doc ed sim 0 k w) in
        let out = (create >>= phases) (relay, w) in
        Returns_move out.0 out.1 out.1.1 (λ r. IsSimulatedRun n k r)
          (Returns-ok create phases (relay, w) (λ r _. IsSimulatedRun n k r) returned
            (Returns-weaken (phases ds (relay, made.1)).0 (phases ds (relay, made.1)).1 _ _
              (λ r _ h. (
                h.named,
                subst (λ c. r.total_transactions + r.failed_transactions ≡ c * n) length_is
                    h.complete,
                h.ledger,
              ))
              (run_phases-Accounts P T ranking L f S (IsCharged P) (simulated_submissions-Charges P)
                name size n threads ds t.schedule t.order relay made.1 (omega arith) some_thread
                (devices_signing P L f doc ed sim ds a) fair.reorders
                (run_schedule_finished P L f size n t ds _
                  (subst (λ c. IsFair P n c t) (sym length_is) fair)))))

    module _ (mining : IsMining P X) (deploying : IsDeploying P X) where
      -- the run from the registration of the devices on
      run_registered :
          (devices : List IotDevice) (s : State P X)
          → IsRecorded P X 0 0 s.0
          → length devices ≡ k
          → All (IsSimulated P L f) devices
          → Returns
              ((register_device_dids P X devices
                  >> run_phases P T
                      (real_submissions P X)
                      L
                      f
                      (codes "hardhat")
                      size
                      n
                      threads
                      devices
                      t.schedule
                      t.order)
                s)
              (λ r s. IsBookedRun n k r s)
      run_registered devices (b, w) start length_is a =
          let S = real_submissions P X in
          let name = codes "hardhat" in
          let register = register_device_dids P X devices in
          let phases = run_phases P T S L f name size n threads devices t.schedule t.order in
          Returns_then register (λ _. phases) (b, w) _ (λ r s. IsBookedRun n k r s)
            (Returns_state (register (b, w)).0 (register (b, w)).1 _ _
              ((register_device_dids-Frames P X devices).at (b, w))
              (register_device_dids_lem P X mining devices (b, w) start.ready))
            (λ _ u (known, same).
              Returns-weaken (phases u).0 (phases u).1 _ _
                (λ r v h. (
                  h.named,
                  subst (λ c. r.total_transactions + r.failed_transactions ≡ c * n) length_is
                      h.complete,
                  h.ledger,
                ))
                (run_phases-Accounts P T ranking L f S (IsRecorded P X)
                  (real_submissions-Charges P X mining) name size n threads devices t.schedule
                  t.order u.0 u.1
                  (record {
                    ready = known.0.ready;
                    mined = start.mined;
                    logged = λ v. same ∙ start.logged w;
                    size = start.size;
                    cost = start.cost;
                  })
                  some_thread (devices_signing P L f doc ed sim devices a) fair.reorders
                  (run_schedule_finished P L f size n t devices _
                    (subst (λ c. IsFair P n c t) (sym length_is) fair))))

      run_on_hardhat-IsBookedRun :
          (s : State P X)
          → IsFresh P X s
          → Returns (run_on_hardhat P L f X T t size n threads k s) (λ r u. IsBookedRun n k r u)
      unfolding run_on_hardhat
      run_on_hardhat-IsBookedRun s fresh =
          let Q = λ (r : ScalabilityResult P) (u : State P X). IsBookedRun n k r u in
          let create = on_second (devices_from P L f 0 k) in
          let rest = λ (ds : List IotDevice).
            register_device_dids P X ds
            >> run_phases P T (real_submissions P X) L f (codes "hardhat") size n threads ds
                t.schedule t.order in
          Returns_then (deploy_contracts P X) (λ _. create >>= rest) s _ Q
            (deploy_contracts-IsFresh P X mining deploying s fresh)
            (λ _ u (ready, fresh).
              let made = devices_from P L f 0 k u.1 in
              let (ds, returned, (length_is, a)) =
                Returns_value made.0 made.1 _ (devices_from-IsSimulated P L f doc ed sim 0 k u.1) in
              Returns-ok create rest u Q returned (
                run_registered ds (u.0, made.1) (IsFresh-IsRecorded P X u.0 u.1 ready fresh)
                  length_is a))

      run-IsRealRun :
          (w : P.World)
          → Returns
              (run P L f X T t size n threads k true w)
              (λ r _. IsRealRun t size threads n k r)
      unfolding run
      run-IsRealRun w =
          let (b, v, created, fresh) = create_blockchain-IsFresh P X mining deploying w in
          let out = run_on_hardhat P L f X T t size n threads k (b, v) in
          let G = IsRealRun t size threads n k in
          subst (λ c. Returns (run_on P L f X T t size n threads k c) (λ r _. G r)) (sym created)
            (Returns_move out.0 out.1 out.1.1 G (
              IsBookedRun-IsRealRun t size threads n k w (b, v) created out refl
                (run_on_hardhat-IsBookedRun (b, v) fresh)))

  module _ (ranking : IsRanking P T) (doc : IsDocumented P) (ed : IsEd25519 P L)
      (sim : get_backend f ≡ simulation) (timings : ℕ → ℕ → Timing P) (n : ℕ) (asked : Option ℕ)
      (fair : (i c : ℕ) → IsFair P n c (timings i c)) where
    -- With hashes of 32 bytes, `urandom` and Ed25519 as documented, in the simulation backend, if
    -- sorting keeps the length and a percentile's rank is below it, and the workers of each run get
    -- their turns, the suite on the simulated blockchain returns, whatever number of threads is asked
    -- for, one result for each count of devices, in order, where every count is positive: each
    -- reading of the run is submitted, at 821563 gas, or counted as failed.
    pub run_scalability_suite_lem :
        (counts : Option (List ℕ)) (w : P.World)
        → All (λ c. 1 ≤ c) (get_or counts (50 ∷ 100 ∷ 500 ∷ 1000 ∷ []))
        → Returns
            (run_scalability_suite P L f X T timings n asked false counts w)
            (λ rs _. Each (IsSimulatedRun n) (get_or counts (50 ∷ 100 ∷ 500 ∷ 1000 ∷ [])) rs)
    unfolding run_scalability_suite
    run_scalability_suite_lem counts w positive =
        run_counts-Each (IsSimulatedRun n) timings n asked false
          (λ i c v one.
            run-IsSimulatedRun ranking doc ed sim (timings i c) 256 n (suite_threads asked c) c
              (suite_threads_lem asked c one).0 (fair i c) v)
          0 (get_or counts (50 ∷ 100 ∷ 500 ∷ 1000 ∷ [])) w positive

    -- A run of the suite with `c` devices.
    abbrev pub IsSuiteRun : ℕ → ScalabilityResult P → Type 0
    IsSuiteRun c r = (i : ℕ) × IsRealRun (timings i c) 256 (suite_threads asked c) n c r

    -- On a node that deploys what it is given and mines every call, with keys that sign, the suite
    -- returns the same way on the real blockchain: for each count of devices, each reading of the run
    -- is a transaction that the backend of this run has recorded, or counted as failed, and the gas is
    -- that of the receipts of these transactions, unless the node gave two of them the same hash. It
    -- assumes of the platform, of Ed25519, of sorting and of the schedules what the suite on the
    -- simulated blockchain needs.
    pub run_scalability_suite_real :
        (mining : IsMining P X) (deploying : IsDeploying P X) (counts : Option (List ℕ))
        (w : P.World)
        → All (λ c. 1 ≤ c) (get_or counts (50 ∷ 100 ∷ 500 ∷ 1000 ∷ []))
        → Returns
            (run_scalability_suite P L f X T timings n asked true counts w)
            (λ rs _. Each IsSuiteRun (get_or counts (50 ∷ 100 ∷ 500 ∷ 1000 ∷ [])) rs)
    unfolding run_scalability_suite
    run_scalability_suite_real mining deploying counts w positive =
        run_counts-Each IsSuiteRun timings n asked true
          (λ i c v one.
            let threads = suite_threads asked c in
            let out = run P L f X T (timings i c) 256 n threads c true v in
            Returns-weaken out.0 out.1 _ _ (λ r _ h. (i, h))
              (run-IsRealRun ranking doc ed sim (timings i c) 256 n threads c
                (suite_threads_lem asked c one).0 (fair i c) mining deploying v))
          0 (get_or counts (50 ∷ 100 ∷ 500 ∷ 1000 ∷ [])) w positive
