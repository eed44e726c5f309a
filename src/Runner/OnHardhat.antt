-- ===== src/Runner/OnHardhat.antt =====
-- Both paths of relay_system/runner.py on a node that works: what they report is what is recorded.
use post_quantum_iot_auth.Prelude.{
  Bool, ◌⊎◌, ℕ, ◌+◌, ◌*◌, ◌≡◌, refl, ap, ◌∙◌, true, false, Option, some, List, codes, length, Bytes,
  All,
}
use post_quantum_iot_auth.Python.{Result, ok, raised, Exec, ◌>>◌}
use post_quantum_iot_auth.Python.Text.{IsByte}
use post_quantum_iot_auth.Python.Loops.{Returns, Returns-weaken, Returns_then, Returns_state}
use post_quantum_iot_auth.Platform.{Platform, IsDocumented}
use post_quantum_iot_auth.Falcon.{Flags}
use post_quantum_iot_auth.Falcon.Crypto.{Libraries}
use post_quantum_iot_auth.Device.{IotDevice}
use post_quantum_iot_auth.Hardhat.Client.{Web3}
use post_quantum_iot_auth.Hardhat.{HardhatBackend, State}
use post_quantum_iot_auth.Hardhat.Mining.{IsMining}
use post_quantum_iot_auth.Hardhat.Decomposition.{
  count_of, get_gas_decomposition, count-get_gas_decomposition,
}
use post_quantum_iot_auth.Runner.{RelayReport, relay_path}
use post_quantum_iot_auth.Runner.Rounds.{Signs, relay_path-Accounts}
use post_quantum_iot_auth.Runner.Direct.{direct_path}
use post_quantum_iot_auth.Runner.Receipted.{direct_path-IsReport}
use post_quantum_iot_auth.Runner.Backend.{
  Blockchain, hardhat, simulated, create_blockchain, setup_real_backend, register_device_dids,
  real_batches, real_chains,
}
use post_quantum_iot_auth.Runner.Setup.{
  IsDeploying, IsPrepared, Spent, setup_real_backend-create_blockchain,
}
use post_quantum_iot_auth.Runner.Registration.{
  register_device_dids_lem, register_device_dids-Frames,
}
use post_quantum_iot_auth.Runner.Recorded.{
  IsRecorded, IsFresh-IsRecorded, real_batches-Books, real_chains-Records, IsRecorded-HasEntries,
}
use post_quantum_iot_auth.Runner.Tally.{Costs, IsRecorded-Costs}
use post_quantum_iot_auth.Runner.Paths.{
  PathResult, of_hardhat, Continuation, proceed, direct_on, run_direct_path, relay_on,
  run_relay_path,
}

module _ (P : Platform) (X : Web3 P) where
  -- `p` is what a path on a real blockchain returned, with `loops` as the part that submits. From a
  -- world, the setup has left the backend `before` with its contracts deployed, and the loops have gone
  -- from there to `after`; the result has the gas of the deployment and names the backend. `after` has
  -- `count` transactions; `gas` is what their receipts cost, unless the node gave two of them the same
  -- hash; and the decomposition is that of `after` and counts each of them.
  pub record IsReal {A : Type 0} (loops : Exec (State P X) A) (gas count : ℕ) (p : PathResult P A)
      : Type 0 where
    pub start : P.World
    pub spent : ℕ
    pub before : State P X
    pub after : State P X
    pub set_up :
        setup_real_backend P X (create_blockchain P X true start)
        ≡ (ok (some spent), (hardhat before.0, before.1))
    pub ran : loops before ≡ (ok p.report, after)
    pub named : p.backend ≡ codes "hardhat"
    pub deployed : p.deploy_gas ≡ some spent
    pub costs : Costs P X gas count after.0
    pub decomposed : p.gas_decomposition ≡ some (get_gas_decomposition P after.0)
    pub counted :
        let d = get_gas_decomposition P after.0 in
        count_of P d.relay + count_of P d.ecdsa_verify + count_of P d.ecdsa_store ≡ count

  -- What the relay path does on a real blockchain that is set up.
  abbrev pub relay_loops_on :
      Libraries P → Flags → ℕ → ℕ → ℕ → List IotDevice → Exec (State P X) (RelayReport P)
  relay_loops_on L f size batch_size n devices =
      register_device_dids P X devices
      >> relay_path P (real_batches P X) L f size batch_size n devices

  -- The report of a relay path on `n` readings; if `strict`, no verification has failed.
  abbrev pub IsBalanced : Bool → ℕ → RelayReport P → Type 0
  IsBalanced strict n r =
      (r.total_transactions + r.failed_verifications ≡ n)
      × ((strict ≡ false) ⊎ (r.failed_verifications ≡ 0))

  of_hardhat-IsReal :
      {A : Type 0} (loops : Exec (State P X) A) (gas count : A → ℕ) (G : A → Type 0)
      (start : P.World) (spent : ℕ) (before : State P X)
      → setup_real_backend P X (create_blockchain P X true start)
        ≡ (ok (some spent), (hardhat before.0, before.1))
      → (out : Result A × State P X) → loops before ≡ out
      → Returns out (λ r t. G r × IsRecorded P X (gas r) (count r) t.0)
      → Returns
          (of_hardhat P X (some spent) out)
          (λ p _. G p.report × IsReal loops (gas p.report) (count p.report) p)
  of_hardhat-IsReal loops gas count G start spent before ready (ok r, (b, w)) ran (good, recorded) =
      let (entries, size) = IsRecorded-HasEntries P X (gas r) (count r) b w recorded in
      (
        good,
        record {
          start = start;
          spent = spent;
          before = before;
          after = (b, w);
          set_up = ready;
          ran = ran;
          named = refl;
          deployed = refl;
          costs = IsRecorded-Costs P X (gas r) (count r) b w recorded;
          decomposed = refl;
          counted = count-get_gas_decomposition P X b entries ∙ size;
        },
      )
  of_hardhat-IsReal loops gas count G start spent before ready (raised e, s) ran h = absurd h

  set_up-Returns :
      {A : Type 0} (path : Continuation P X A) (Q : PathResult P A → Type 0)
      (out : Result (Option ℕ) × (Blockchain P X × P.World))
      → ((g : ℕ) (b : HardhatBackend P X) (w : P.World)
          → out ≡ (ok (some g), (hardhat b, w))
          → IsRecorded P X 0 0 b
          → Returns (path (some g) (hardhat b, w)) (λ p _. Q p))
      → Returns out (λ gas t. Spent P X gas × IsPrepared P X t)
      → Returns (proceed P X path out) (λ p _. Q p)
  set_up-Returns path Q (ok gas, (hardhat b, w)) k ((g, e), (ready, fresh)) =
      rw e
        (k g b w (ap (λ gas. (ok gas, (hardhat b, w))) e) (IsFresh-IsRecorded P X b w ready fresh))
  set_up-Returns path Q (ok gas, (simulated chain, w)) k h = absurd h.1
  set_up-Returns path Q (raised e, c) k h = absurd h

  module _ (mining : IsMining P X) (deploying : IsDeploying P X) where
    -- Where the node deploys what it is given and mines every call, keys sign, and a hash consists of
    -- 32 bytes, the direct path on the real blockchain returns; each reading is a transaction that
    -- the backend of this run has recorded, and the total is the gas of their receipts, unless the
    -- node gave two of them the same hash.
    pub run_direct_path-IsReal :
        (doc : IsDocumented P) (bytes : (b : Bytes) → All IsByte (P.sha256 b)) (size n : ℕ)
        (devices : List IotDevice) (w : P.World)
        → Returns (run_direct_path P X true size n devices w) (λ p _.
          (p.report.total_transactions ≡ length devices * n)
          × IsReal
              (direct_path P (real_chains P X) size n devices)
              p.report.total_gas
              p.report.total_transactions
              p)
    unfolding run_direct_path direct_on
    run_direct_path-IsReal doc bytes size n devices w =
        let c = setup_real_backend P X (create_blockchain P X true w) in
        let loops = direct_path P (real_chains P X) size n devices in
        set_up-Returns (direct_on P X size n devices) _ c
          (λ g b v ready recorded.
            of_hardhat-IsReal loops (λ r. r.total_gas) (λ r. r.total_transactions)
              (λ r. r.total_transactions ≡ length devices * n) w g (b, v) ready (loops (b, v)) refl
              (direct_path-IsReport P (real_chains P X) (IsRecorded P X)
                (real_chains-Records P X mining doc bytes) size n devices b v recorded))
          (setup_real_backend-create_blockchain P X mining deploying w)

    module _ (L : Libraries P) (f : Flags) where
      -- Where the node deploys what it is given and mines every call, keys sign, and signing and
      -- verification return, the relay path on the real blockchain returns, for every batch size: each
      -- reading is counted as failed or is a transaction that the backend of this run has recorded,
      -- and the total is the gas of their receipts, unless the node gave two of them the same hash. If
      -- every signature verifies, none is counted as failed.
      pub run_relay_path-IsReal :
          (strict : Bool) (size batch_size n : ℕ) (devices : List IotDevice) (w : P.World)
          → All (Signs P L f strict) devices
          → Returns (run_relay_path P X L f true size batch_size n devices w) (λ p _.
            IsBalanced strict (length devices * n) p.report
            × IsReal
                (relay_loops_on L f size batch_size n devices)
                p.report.total_gas
                p.report.total_transactions
                p)
      unfolding run_relay_path relay_on
      run_relay_path-IsReal strict size batch_size n devices w a =
          let c = setup_real_backend P X (create_blockchain P X true w) in
          let register = register_device_dids P X devices in
          let path = relay_path P (real_batches P X) L f size batch_size n devices in
          let G = λ (r : RelayReport P). IsBalanced strict (length devices * n) r in
          set_up-Returns (relay_on P X L f size batch_size n devices) _ c
            (λ g b v ready start.
              of_hardhat-IsReal (register >> path) (λ r. r.total_gas) (λ r. r.total_transactions) G
                w g (b, v) ready ((register >> path) (b, v)) refl
                (Returns_then register (λ _. path) (b, v) _
                  (λ r t. G r × IsRecorded P X r.total_gas r.total_transactions t.0)
                  (Returns_state (register (b, v)).0 (register (b, v)).1 _ _
                    ((register_device_dids-Frames P X devices).at (b, v))
                    (register_device_dids_lem P X mining devices (b, v) start.ready))
                  (λ _ t (known, same).
                    Returns-weaken (path t).0 (path t).1 _ _
                      (λ r t k. ((k.complete, k.clean), k.ledger))
                      (relay_path-Accounts P L f (real_batches P X) (IsRecorded P X)
                        (real_batches-Books P X mining) strict size batch_size n devices t.0 t.1
                        (record {
                          ready = known.0.ready;
                          mined = start.mined;
                          logged = λ u. same ∙ start.logged v;
                          size = start.size;
                          cost = start.cost;
                        })
                        a))))
            (setup_real_backend-create_blockchain P X mining deploying w)
