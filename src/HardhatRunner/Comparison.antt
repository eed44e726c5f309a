-- ===== src/HardhatRunner/Comparison.antt =====
-- `run_gas_comparison` of relay_system/hardhat_runner.py on a node that works.
use post_quantum_iot_auth.Prelude.{
  ℕ, suc, ◌≡◌, refl, ap, Option, List, subst, ◌∙◌, Bytes, Text, codes, length, Bool-cases, inl, inr,
}
use post_quantum_iot_auth.Python.{Result, ok, Exec, pure, lift, call, on_second, ◌>>=◌, ◌>>◌}
use post_quantum_iot_auth.Python.Loops.{
  Returns, Returns-ok, Returns_then, Returns_of, Returns_value,
}
use post_quantum_iot_auth.Platform.{Platform}
use post_quantum_iot_auth.Hardhat.Client.{Web3, ContractCall}
use post_quantum_iot_auth.Hardhat.{account_at}
use post_quantum_iot_auth.Hardhat.Mining.{IsMining}
use post_quantum_iot_auth.Runner.Setup.{IsDeploying}
use post_quantum_iot_auth.HardhatRunner.{
  State, get_w3, accounts, set_contracts, DeployInfo, deploy_contracts, register_did, RelayMetrics,
  submit_all, GasComparison, summary, run_gas_comparison,
}
use post_quantum_iot_auth.HardhatRunner.Receipts.{
  IsReady, IsReported, length-receipts_gas, transact_deployed, move, submit_all-gas,
}
use post_quantum_iot_auth.HardhatRunner.Summary.{IsSummary, summary-IsSummary}

module _ (P : Platform) (X : Web3 P) (artifacts : Exec P.World (Unit {0})) where
  -- From a state that `I` holds of, `m` returns as `Q` says.
  record Ends {A : Type 0} (I : State P X artifacts → Type 0) (Q : A → State P X artifacts → Type 0)
      (m : Exec (State P X artifacts) A) : Type 0 where
    at : (s : State P X artifacts) → I s → Returns (m s) Q

  module _ {A : Type 0} (I : State P X artifacts → Type 0)
      (Q : A → State P X artifacts → Type 0) where
    Ends-lift :
        {B : Type 0} (r : Result B) (f : B → Exec (State P X artifacts) A) (b : B)
        → r ≡ ok b
        → Ends I Q (f b)
        → Ends I Q (lift r >>= f)
    Ends-lift r f b e k = record { at = λ s i. Returns-ok (lift r) f s Q e (k.at s i) }

    -- A first part that keeps `I`, with what is known of its value.
    Ends-bind :
        {B : Type 0} (m : Exec (State P X artifacts) B) (f : B → Exec (State P X artifacts) A)
        (R : B → Type 0)
        → Ends I (λ b t. R b × I t) m
        → ((b : B) → R b → Ends I Q (f b))
        → Ends I Q (m >>= f)
    Ends-bind m f R h k = record {
      at = λ s i. Returns_then m f s (λ b t. R b × I t) Q (h.at s i) (λ b t (r, j). (k b r).at t j);
    }

  abbrev Ready : State P X artifacts → Type 0
  Ready s = IsReady P X artifacts s

  abbrev Anywhere : State P X artifacts → Type 0
  Anywhere s = Unit

  module _ (mining : IsMining P X) (deploying : IsDeploying P X)
      (compiled : (w : P.World) → (artifacts w).0 ≡ ok tt) where
    get_w3-Ends : Ends Anywhere (λ _ t. Unit {0} × Anywhere t) (get_w3 P X artifacts)
    unfolding get_w3
    get_w3-Ends = record {
      at = λ s _. elim (Bool-cases s.0.has_w3) [
        | inl open_ ↦ rw open_ (tt, tt)
        | inr closed ↦ rw (closed, mining.connected s.1) (tt, tt)
      ];
    }

    -- The accounts of an owner and of a relay.
    abbrev HasAccounts : List Text → Type 0
    HasAccounts l = ((a : Text) × (account_at 0 l ≡ ok a)) × ((b : Text) × (account_at 1 l ≡ ok b))

    accounts-Ends : Ends Anywhere (λ l t. HasAccounts l × Anywhere t) (accounts P X artifacts)
    accounts-Ends = record { at = λ s _. ((deploying.owner s.1, deploying.relay s.1), tt) }

    artifacts-Ends : Ends Anywhere (λ _ t. Unit {0} × Anywhere t) (on_second artifacts)
    artifacts-Ends = record { at = λ s _. rw (compiled s.1) (tt, tt) }

    deploy-Ends :
        (name : Text) (arg : Option Text) (sender : Text)
        → Ends Anywhere (λ _ t. Unit {0} × Anywhere t) (on_second (X.deploy name arg sender))
    deploy-Ends name arg sender = record {
      at = λ s _. rw (deploying.deploys name arg sender s.1).1 (tt, tt);
    }

    set_contracts-Ends :
        (did meta : X.Contract) (info : DeployInfo P X artifacts)
        → Ends Anywhere (λ _ t. Ready t) (set_contracts P X artifacts did meta >> pure info)
    set_contracts-Ends did meta info = record {
      at = λ s _. record { registry = did; has_registry = refl; relay = meta; has_relay = refl };
    }

    register_did-Ends :
        (h k : Bytes) (sender : Text)
        → Ends Ready (λ _ t. Unit {0} × Ready t) (register_did P X artifacts h k sender)
    unfolding register_did
    register_did-Ends h k sender = record {
      at = λ s ready.
          transact_deployed P X artifacts mining (λ r. r.did_registry) ready.registry
            (ContractCall.register_did h k) sender (λ receipt. pure receipt.gas_used)
            (λ _ t. Unit {0} × Ready t) s ready.has_registry
            (λ r _. (tt, move P X artifacts mining s _ ready));
    }

    urandom-Ends : (n : ℕ) → Ends Ready (λ _ t. Unit {0} × Ready t) (on_second (call (P.urandom n)))
    urandom-Ends n = record {
      at = λ s ready. (tt, move P X artifacts mining s (P.urandom n s.1).1 ready);
    }

    module _ {A : Type 0} (Q : A → State P X artifacts → Type 0) where
      any-Ends :
          {B : Type 0} (m : Exec (State P X artifacts) B) (f : B → Exec (State P X artifacts) A)
          → Ends Anywhere (λ _ t. Unit {0} × Anywhere t) m
          → ((b : B) → Ends Anywhere Q (f b))
          → Ends Anywhere Q (m >>= f)
      any-Ends m f h k = Ends-bind Anywhere Q m f (λ _. Unit {0}) h (λ b _. k b)

      with_accounts-Ends :
          (f : List Text → Exec (State P X artifacts) A)
          → ((l : List Text) (a b : Text)
              → account_at 0 l ≡ ok a
              → account_at 1 l ≡ ok b
              → Ends Anywhere Q (f l))
          → Ends Anywhere Q (accounts P X artifacts >>= f)
      with_accounts-Ends f k =
          Ends-bind Anywhere Q (accounts P X artifacts) f HasAccounts accounts-Ends
            (λ l (a, b). k l a.0 b.0 a.1 b.1)

    deploy_contracts-Ends : Ends Anywhere (λ _ t. Ready t) (deploy_contracts P X artifacts)
    unfolding deploy_contracts
    deploy_contracts-Ends =
        search
          (
            with_accounts-Ends,
            Ends-lift Anywhere,
            set_contracts-Ends,
            any-Ends,
            get_w3-Ends,
            artifacts-Ends,
            deploy-Ends,
          )
          depth 24

    module _ (n : ℕ) where
      -- the end of the comparison
      abbrev Summed : GasComparison P X artifacts → State P X artifacts → Type 0
      Summed c s = IsReported P X artifacts (suc n) c s

      deploy-then :
          (f : DeployInfo P X artifacts → Exec (State P X artifacts) (GasComparison P X artifacts))
          → ((info : DeployInfo P X artifacts) → Ends Ready Summed (f info))
          → Ends Anywhere Summed (deploy_contracts P X artifacts >>= f)
      deploy-then f k = record {
        at = λ s i.
            Returns_then (deploy_contracts P X artifacts) f s (λ _ t. Ready t) Summed
              (deploy_contracts-Ends.at s i) (λ info t ready. (k info).at t ready);
      }

      Ends-bind_deployed :
          {B : Type 0} (m : Exec (State P X artifacts) B)
          (f : B → Exec (State P X artifacts) (GasComparison P X artifacts))
          → Ends Ready (λ _ t. Unit {0} × Ready t) m
          → ((b : B) → Ends Ready Summed (f b))
          → Ends Ready Summed (m >>= f)
      Ends-bind_deployed m f h k = Ends-bind Ready Summed m f (λ _. Unit {0}) h (λ b _. k b)

      -- The rest of the comparison from its loop on.
      submit_and_sum-Ends :
          (relay : Text) (reg_gas : ℕ) (info : DeployInfo P X artifacts)
          → Ends Ready Summed (
              submit_all P X artifacts
                (P.sha256 (codes "did:falconiot:hardhat-test"))
                relay
                0
                (suc n)
              >>= λ ms. lift (summary P X artifacts (suc n) info reg_gas ms))
      submit_and_sum-Ends relay reg_gas info = record {
        at = λ s ready.
            let did_hash = P.sha256 (codes "did:falconiot:hardhat-test") in
            let loop = submit_all P X artifacts did_hash relay 0 (suc n) in
            let finish = λ (ms : List (RelayMetrics P X artifacts)).
              lift {S = State P X artifacts} (summary P X artifacts (suc n) info reg_gas ms) in
            let (ms, returned, costs) =
              Returns_value (loop s).0 (loop s).1 _
                (submit_all-gas P X artifacts mining did_hash relay 0 (suc n) s ready) in
            let (c, made, good) = summary-IsSummary P X artifacts n reg_gas info ms (
              ap length costs
              ∙ length-receipts_gas P X artifacts ready.relay relay did_hash 0 (suc n) s.1) in
            Returns-ok loop finish s Summed returned (
              Returns_of (summary P X artifacts (suc n) info reg_gas ms) (loop s).1 Summed made
                (record {
                  contract = ready.relay;
                  relay = relay;
                  before = s;
                  deployed_at = ready.has_relay;
                  metrics = ms;
                  ran = ap (λ r. (r, (loop s).1)) returned;
                  reported = subst (λ gs. IsSummary P X artifacts gs c) costs good;
                }));
      }

      -- On a node that is connected, has an owner and a relay account, deploys what it is given and
      -- mines every call, where the artifacts are there, a comparison of at least one transaction
      -- returns. Its loop has submitted that many transactions; and its mean, its minimum and its
      -- maximum are those of the gas in their receipts.
      pub run_gas_comparison_lem :
          (s : State P X artifacts)
          → Returns
              (run_gas_comparison P X artifacts (suc n) s)
              (λ c t. IsReported P X artifacts (suc n) c t)
      unfolding run_gas_comparison
      run_gas_comparison_lem s =
          let M : Type 0 = Exec (State P X artifacts) (GasComparison P X artifacts) in
          let did_hash = P.sha256 (codes "did:falconiot:hardhat-test") in
          let submit : Text → DeployInfo P X artifacts → ℕ → M = λ relay info reg_gas.
            submit_all P X artifacts did_hash relay 0 (suc n) >>= λ ms.
            lift (summary P X artifacts (suc n) info reg_gas ms) in
          let register : Text → Text → DeployInfo P X artifacts → M = λ owner relay info.
            on_second (call (P.urandom 897)) >>= λ key.
            register_did P X artifacts did_hash key owner >>= submit relay info in
          let choose : List Text → DeployInfo P X artifacts → Text → M =
            λ l info owner. lift (account_at 1 l) >>= λ relay. register owner relay info in
          let deploy : List Text → M = λ l.
            deploy_contracts P X artifacts >>= λ info. lift (account_at 0 l) >>= choose l info in
          let whole : Ends Anywhere Summed (run_gas_comparison P X artifacts (suc n)) =
            any-Ends Summed (get_w3 P X artifacts) (λ _. accounts P X artifacts >>= deploy)
              get_w3-Ends
              (λ _. with_accounts-Ends Summed deploy (λ l owner relay is_owner is_relay.
                deploy-then (λ info. lift (account_at 0 l) >>= choose l info)
                  (λ info. Ends-lift Ready Summed (account_at 0 l) (choose l info) owner is_owner (
                    Ends-lift Ready Summed (account_at 1 l) (λ relay. register owner relay info)
                      relay is_relay
                      (Ends-bind_deployed (on_second (call (P.urandom 897)))
                        (λ key. register_did P X artifacts did_hash key owner >>= submit relay info)
                        (urandom-Ends 897)
                        (λ key.
                          Ends-bind_deployed (register_did P X artifacts did_hash key owner)
                            (submit relay info) (register_did-Ends did_hash key owner)
                            (λ reg_gas. submit_and_sum-Ends relay reg_gas info))))))) in
          whole.at s tt
