-- ===== src/HardhatRunner/Receipts.antt =====
-- What the loop of `run_gas_comparison` of relay_system/hardhat_runner.py submits, and the gas in the
-- receipts of that.
use post_quantum_iot_auth.Prelude.{
  ℕ, zero, suc, ◌+◌, ◌≡◌, refl, ap, true, Option, some, List, [], ◌∷◌, ap₂, sym, subst, ◌++◌, Bytes,
  Text, codes, length,
}
use post_quantum_iot_auth.Python.{
  attribute_error, Result, ok, raised, Exec, pure, call, or_raise, on_second, ◌>>=◌,
}
use post_quantum_iot_auth.Python.Loops.{Returns, Returns-ok, Returns-run, Returns_then}
use post_quantum_iot_auth.Python.Text.{decimal}
use post_quantum_iot_auth.Platform.{Platform}
use post_quantum_iot_auth.Hardhat.Client.{Web3, ContractCall, EvmReceipt}
use post_quantum_iot_auth.Hardhat.Mining.{IsMining}
use post_quantum_iot_auth.HardhatRunner.{
  HardhatRunner, State, deployed, RelayMetrics, metrics_of, submit_relay_transaction, submit_all,
  GasComparison,
}
use post_quantum_iot_auth.HardhatRunner.Summary.{costs_of, IsSummary}

module _ (P : Platform) (X : Web3 P) (artifacts : Exec P.World (Unit {0})) where
  -- Both contracts are deployed.
  pub record IsReady (s : State P X artifacts) : Type 0 where
    pub registry : X.Contract
    pub has_registry : s.0.did_registry ≡ some registry
    pub relay : X.Contract
    pub has_relay : s.0.meta_tx_relay ≡ some relay

  -- Call number `i` of `submitTransaction` from a world, with its random signature.
  abbrev sent : X.Contract → Text → Bytes → ℕ → P.World → Result EvmReceipt × P.World
  sent contract relay did_hash i w =
      let (sig, w₁) = P.urandom 752 w in
      X.transact contract
        (ContractCall.submit_transaction (P.sha256 (codes "test-data-" ++ decimal i)) did_hash sig
          true)
        relay (P.perf_counter w₁).1

  abbrev gas_in : Result EvmReceipt → ℕ
  gas_in (ok receipt) = receipt.gas_used
  gas_in (raised e) = 0

  -- The gas in the receipts of `n` such calls, from number `i` on, one after the other.
  abbrev pub receipts_gas : X.Contract → Text → Bytes → ℕ → ℕ → P.World → List ℕ
  receipts_gas contract relay did_hash i zero w = []
  receipts_gas contract relay did_hash i (suc n) w =
      let (receipt, w') = sent contract relay did_hash i w in
      gas_in receipt ∷ receipts_gas contract relay did_hash (i + 1) n (P.perf_counter w').1

  -- A report on `n` transactions, when the run ends in `after`: from the state `before`, with the
  -- contract deployed, the loop has submitted them and has ended in `after`; and the report's mean,
  -- least and greatest are those of the gas in their receipts.
  pub record IsReported (n : ℕ) (c : GasComparison P X artifacts) (after : State P X artifacts)
      : Type 0 where
    pub contract : X.Contract
    pub relay : Text
    pub before : State P X artifacts
    pub deployed_at : before.0.meta_tx_relay ≡ some contract
    pub metrics : List (RelayMetrics P X artifacts)
    pub ran :
        submit_all P X artifacts (P.sha256 (codes "did:falconiot:hardhat-test")) relay 0 n before
        ≡ (ok metrics, after)
    pub reported :
        IsSummary P X artifacts
          (receipts_gas contract relay (P.sha256 (codes "did:falconiot:hardhat-test")) 0 n before.1)
          c

  pub length-receipts_gas :
      (contract : X.Contract) (relay : Text) (did_hash : Bytes) (i n : ℕ) (w : P.World)
      → length (receipts_gas contract relay did_hash i n w) ≡ n
  length-receipts_gas contract relay did_hash i zero w = refl
  length-receipts_gas contract relay did_hash i (suc n) w =
      ap suc (length-receipts_gas contract relay did_hash (i + 1) n _)

  module _ (mining : IsMining P X) where
    -- A call of a contract that is deployed.
    pub transact_deployed :
        {A : Type 0} (field : HardhatRunner P X artifacts → Option X.Contract) (c : X.Contract)
        (call_ : ContractCall) (sender : Text) (f : EvmReceipt → Exec (State P X artifacts) A)
        (Q : A → State P X artifacts → Type 0) (s : State P X artifacts)
        → field s.0 ≡ some c
        → ((r : EvmReceipt)
            → (X.transact c call_ sender s.1).0 ≡ ok r
            → Returns (f r (s.0, (X.transact c call_ sender s.1).1)) Q)
        → Returns
            ((deployed P X artifacts field >>= λ c. on_second (X.transact c call_ sender) >>= f) s)
            Q
    transact_deployed field c call_ sender f Q s e k =
        let (r, mined) = mining.mines c call_ sender s.1 in
        let send = λ (c : X.Contract).
          on_second {S = HardhatRunner P X artifacts} (X.transact c call_ sender) >>= f in
        Returns-run (deployed P X artifacts field) send s Q
          (ap (λ o. or_raise {S = State P X artifacts} o attribute_error s) e)
          (Returns-ok (on_second (X.transact c call_ sender)) f s Q mined (k r mined))

    -- The contracts do not depend on the world.
    abbrev pub move : (s : State P X artifacts) (w : P.World) → IsReady s → IsReady (s.0, w)
    move s w r = record {
      registry = r.registry;
      has_registry = r.has_registry;
      relay = r.relay;
      has_relay = r.has_relay;
    }

    -- A round of the loop costs what its receipt says, and ends after the second reading of the clock.
    submit_relay_transaction-gas :
        (data_hash did_hash sig : Bytes) (relay : Text) (s : State P X artifacts)
        (ready : IsReady s)
        → let call_ = ContractCall.submit_transaction data_hash did_hash sig true in
          let out = X.transact ready.relay call_ relay (P.perf_counter s.1).1 in
          Returns
            (submit_relay_transaction P X artifacts data_hash did_hash sig true relay s)
            (λ m t. (m.gas_used ≡ gas_in out.0) × (t ≡ (s.0, (P.perf_counter out.1).1)))
    unfolding submit_relay_transaction
    submit_relay_transaction-gas data_hash did_hash sig relay s ready =
        let (start, w) = P.perf_counter s.1 in
        let call_ = ContractCall.submit_transaction data_hash did_hash sig true in
        let out = X.transact ready.relay call_ relay w in
        transact_deployed (λ r. r.meta_tx_relay) ready.relay call_ relay
          (λ receipt. on_second (call P.perf_counter) >>= λ stop.
            pure (metrics_of P X artifacts start stop receipt))
          (λ m t. (m.gas_used ≡ gas_in out.0) × (t ≡ (s.0, (P.perf_counter out.1).1))) (s.0, w)
          ready.has_relay (λ r mined. (ap gas_in (sym mined), refl))

    pub submit_all-gas :
        (did_hash : Bytes) (relay : Text) (i n : ℕ) (s : State P X artifacts) (ready : IsReady s)
        → Returns
            (submit_all P X artifacts did_hash relay i n s)
            (λ ms _. costs_of P X artifacts ms ≡ receipts_gas ready.relay relay did_hash i n s.1)
    unfolding submit_all
    submit_all-gas did_hash relay i zero s ready = refl
    submit_all-gas did_hash relay i (suc n) s ready =
        let (sig, w) = P.urandom 752 s.1 in
        let u : State P X artifacts = (s.0, w) in
        let ready' = move s w ready in
        let Q = λ (ms : List (RelayMetrics P X artifacts)) (_ : State P X artifacts).
          costs_of P X artifacts ms ≡ receipts_gas ready.relay relay did_hash i (suc n) s.1 in
        let rest = submit_all P X artifacts did_hash relay (i + 1) n in
        let add = λ (m : RelayMetrics P X artifacts) (ms : List (RelayMetrics P X artifacts)).
          pure {S = State P X artifacts} (m ∷ ms) in
        let data_hash = P.sha256 (codes "test-data-" ++ decimal i) in
        Returns_then (submit_relay_transaction P X artifacts data_hash did_hash sig true relay)
          (λ m. rest >>= add m) u _ Q
          (submit_relay_transaction-gas data_hash did_hash sig relay u ready')
          (λ m t (gas, at).
            let v : State P X artifacts =
              (s.0, (P.perf_counter (sent ready.relay relay did_hash i s.1).1).1) in
            subst (λ t. Returns ((rest >>= add m) t) Q) (sym at)
              (Returns_then rest (add m) v _ Q
                (submit_all-gas did_hash relay (i + 1) n v (move s v.1 ready))
                (λ ms _ e. ap₂ (λ g gs. g ∷ gs) gas e)))
