-- ===== src/Runner/Setup.antt =====
-- `_create_blockchain` and `_setup_real_backend` of relay_system/runner.py on a node that works.
use post_quantum_iot_auth.Prelude.{
  ◌∙◌, ◌≡◌, refl, sym, ap, subst, true, Option, some, List, ℕ, Text,
}
use post_quantum_iot_auth.Python.{Result, ok, raised, Exec, pure, lift, on_second, ◌>>=◌, ◌>>◌}
use post_quantum_iot_auth.Python.Loops.{
  Returns_state, Returns, Returns-ok, Returns-run, Returns_then,
}
use post_quantum_iot_auth.Platform.{Platform}
use post_quantum_iot_auth.Hardhat.Client.{Web3, Deployed}
use post_quantum_iot_auth.Hardhat.{
  HardhatBackend, Contracts, State, account_at, accounts, get_w3, deploy_contracts, new_backend,
  set_contracts,
}
use post_quantum_iot_auth.Hardhat.Recording.{log, get_w3-Frames, deploy_contracts-Frames}
use post_quantum_iot_auth.Hardhat.Mining.{IsMining, IsReady}
use post_quantum_iot_auth.Runner.Backend.{
  Blockchain, hardhat, simulated, connected, create_blockchain, setup_real_backend,
}
use post_quantum_iot_auth.Runner.Registration.{get_w3_run}

module _ (P : Platform) (X : Web3 P) where
  -- The artifacts are there, there is an owner and a relay account, and the node deploys.
  pub record IsDeploying : Type 0 where
    pub artifact : (name : Text) → X.load_artifact name ≡ ok tt
    pub owner : (w : P.World) → (a : Text) × (account_at 0 (X.accounts w).0 ≡ ok a)
    pub relay : (w : P.World) → (a : Text) × (account_at 1 (X.accounts w).0 ≡ ok a)
    pub deploys :
        (name : Text) (arg : Option Text) (sender : Text) (w : P.World)
        → (d : Deployed X.Contract) × ((X.deploy name arg sender w).0 ≡ ok d)

  -- `m` returns with the contracts deployed.
  record Deploys {A : Type 0} (m : Exec (State P X) A) : Type 0 where
    at : (s : State P X) → Returns (m s) (λ _ t. IsReady P X t)

  module _ {A : Type 0} where
    Deploys-lift :
        {B : Type 0} (r : Result B) (f : B → Exec (State P X) A) (b : B)
        → r ≡ ok b
        → Deploys (f b)
        → Deploys (lift r >>= f)
    Deploys-lift r f b e k = record {
      at = λ s. Returns-ok (lift r) f s (λ _ t. IsReady P X t) e (k.at s);
    }

    Deploys-set_contracts : (c : Contracts P X) (a : A) → Deploys (set_contracts P X c >> pure a)
    Deploys-set_contracts c a = record { at = λ s. (c, refl) }

    module _ (mining : IsMining P X) (deploying : IsDeploying) where
      Deploys-get_w3 : (m : Exec (State P X) A) → Deploys m → Deploys (get_w3 P X >> m)
      Deploys-get_w3 m k = record {
        at = λ s.
            let (u, opened, _, _) = get_w3_run P X mining s in
            Returns-run (get_w3 P X) (λ _. m) s (λ _ t. IsReady P X t) opened (k.at u);
      }

      Deploys-load_artifact :
          (name : Text) (m : Exec (State P X) A)
          → Deploys m
          → Deploys (lift (X.load_artifact name) >> m)
      Deploys-load_artifact name m k =
          Deploys-lift (X.load_artifact name) (λ _. m) tt (deploying.artifact name) k

      Deploys-accounts :
          (f : List Text → Exec (State P X) A)
          → ((l : List Text) (a b : Text)
              → account_at 0 l ≡ ok a
              → account_at 1 l ≡ ok b
              → Deploys (f l))
          → Deploys (accounts P X >>= f)
      unfolding accounts
      Deploys-accounts f k = record {
        at = λ (b, w).
            let (owner, is_owner) = deploying.owner w in
            let (relay, is_relay) = deploying.relay w in
            (k (X.accounts w).0 owner relay is_owner is_relay).at (b, (X.accounts w).1);
      }

      Deploys-deploy :
          (name : Text) (arg : Option Text) (sender : Text)
          (f : Deployed X.Contract → Exec (State P X) A)
          → ((d : Deployed X.Contract) → Deploys (f d))
          → Deploys (on_second (X.deploy name arg sender) >>= f)
      Deploys-deploy name arg sender f k = record {
        at = λ (b, w).
            let (d, made) = deploying.deploys name arg sender w in
            Returns-ok (on_second (X.deploy name arg sender)) f (b, w) (λ _ t. IsReady P X t) made
              ((k d).at (b, (X.deploy name arg sender w).1));
      }

  module _ (mining : IsMining P X) (deploying : IsDeploying) where
    deploy_contracts-Deploys : Deploys (deploy_contracts P X)
    unfolding deploy_contracts
    deploy_contracts-Deploys =
        search
          (
            Deploys-get_w3 mining deploying,
            Deploys-accounts mining deploying,
            Deploys-load_artifact mining deploying,
            Deploys-deploy mining deploying,
            Deploys-lift,
            Deploys-set_contracts,
          )
          depth 24

  -- Nothing is logged.
  abbrev pub IsFresh : State P X → Type 0
  IsFresh s = log P X s ≡ log P X (new_backend P X, s.1)

  -- A real blockchain with its contracts and without a transaction.
  abbrev pub IsPrepared : Blockchain P X × P.World → Type 0
  IsPrepared (hardhat backend, w) = IsReady P X (backend, w) × IsFresh (backend, w)
  IsPrepared (simulated chain, w) = ⊥

  abbrev pub Spent : Option ℕ → Type 0
  Spent gas = (g : ℕ) × (gas ≡ some g)

  abbrev chosen : State P X → Blockchain P X × P.World
  chosen (b, w) = (hardhat b, w)

  repack :
      (r : Result (Option ℕ)) (s : State P X)
      → Returns (r, s) (λ gas t. Spent gas × IsReady P X t × IsFresh t)
      → Returns (r, chosen s) (λ gas t. Spent gas × IsPrepared t)
  repack (ok gas) s h = (h.0, (h.1, h.2))
  repack (raised e) s h = absurd h

  module _ (mining : IsMining P X) (deploying : IsDeploying) where
    pub deploy_contracts-IsFresh :
        (s : State P X)
        → IsFresh s
        → Returns (deploy_contracts P X s) (λ _ t. IsReady P X t × IsFresh t)
    deploy_contracts-IsFresh s fresh =
        let out = deploy_contracts P X s in
        Returns_state out.0 out.1 (λ _ t. IsReady P X t) IsFresh
          ((deploy_contracts-Frames P X).at s ∙ fresh)
          ((deploy_contracts-Deploys mining deploying).at s)

    setup_real_backend_returns :
        (b : HardhatBackend P X) (w : P.World)
        → IsFresh (b, w)
        → Returns (setup_real_backend P X (hardhat b, w)) (λ gas t. Spent gas × IsPrepared t)
    unfolding setup_real_backend
    setup_real_backend_returns b w fresh =
        let m = deploy_contracts P X >>= λ gas. pure (some gas) in
        repack (m (b, w)).0 (m (b, w)).1 (
          Returns_then (deploy_contracts P X) (λ gas. pure (some gas)) (b, w)
            (λ _ t. IsReady P X t × IsFresh t) (λ gas t. Spent gas × IsReady P X t × IsFresh t)
            (deploy_contracts-IsFresh (b, w) fresh)
            (λ gas t (ready, fresh). ((gas, refl), ready, fresh)))

    -- The node can be reached, and the new backend has nothing in its log.
    pub create_blockchain-IsFresh :
        (w : P.World)
        → (b : HardhatBackend P X) × (v : P.World) × (create_blockchain P X true w ≡ (hardhat b, v))
          × IsFresh (b, v)
    unfolding create_blockchain
    create_blockchain-IsFresh w =
        let (u, opened, _, _) = get_w3_run P X mining (new_backend P X, w) in
        (
          u.0,
          u.1,
          ap (λ (o : Result (Unit {0}) × State P X). (connected P X o.0 o.1.0, o.1.1)) opened,
          ap (λ (o : Result (Unit {0}) × State P X). log P X o.1) (sym opened)
              ∙ (get_w3-Frames P X).at (new_backend P X, w),
        )

    -- On a node that is connected, has an owner and a relay account, deploys what it is given and
    -- mines every call, the runner chooses the real blockchain, and its setup returns the gas that was
    -- spent and leaves the contracts deployed and no
    -- transaction in the log.
    pub setup_real_backend-create_blockchain :
        (w : P.World)
        → Returns
            (setup_real_backend P X (create_blockchain P X true w))
            (λ gas t. Spent gas × IsPrepared t)
    setup_real_backend-create_blockchain w =
        let (b, v, created, fresh) = create_blockchain-IsFresh w in
        subst (λ c. Returns (setup_real_backend P X c) (λ gas t. Spent gas × IsPrepared t))
          (sym created) (setup_real_backend_returns b v fresh)
