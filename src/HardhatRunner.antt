-- ===== src/HardhatRunner.antt =====
-- relay_system/hardhat_runner.py: the comparison of gas costs on a real node.
pub mod Summary
pub mod Receipts
pub mod Comparison
pub mod Node
use post_quantum_iot_auth.Prelude.{
  ℕ, zero, suc, ◌+◌, ◌≡◌, Bool, true, false, Option, none, some, List, [], ◌∷◌, ◌++◌, Bytes, Text,
  codes, length, sum, map, min, max, if◌then◌else◌,
}
use post_quantum_iot_auth.Python.{
  attribute_error, connection_error, zero_division_error, value_error, Result, ok, raised, Exec,
  pure, raise, lift, call, or_raise, on_second, catch_all, ◌>>=◌, ◌>>◌,
}
use post_quantum_iot_auth.Python.Text.{decimal}
use post_quantum_iot_auth.Platform.{Platform}
use post_quantum_iot_auth.Config.{falcon_512_public_key_size, falcon_512_signature_size_max}
use post_quantum_iot_auth.Hardhat.Client.{Web3, ContractCall, EvmReceipt}
use post_quantum_iot_auth.Hardhat.{account_at}

-- `min` and `max` of a list that begins with `g`
abbrev pub least : ℕ → List ℕ → ℕ
least g [] = g
least g (h ∷ gs) = min g (least h gs)

abbrev pub greatest : ℕ → List ℕ → ℕ
greatest g [] = g
greatest g (h ∷ gs) = max g (greatest h gs)

-- `artifacts` reads the two artifacts, after a compilation where one is missing.
module _ (P : Platform) (X : Web3 P) (artifacts : Exec P.World (Unit {0})) where
  open P use {Float, World}

  pub record HardhatRunner : Type 0 where
    pub has_w3 : Bool
    pub did_registry : Option X.Contract
    pub meta_tx_relay : Option X.Contract

  unfoldable pub new_runner : HardhatRunner
  new_runner = record { has_w3 = false; did_registry = none; meta_tx_relay = none }

  abbrev pub State : Type 0
  State = HardhatRunner × World

  -- `_get_w3`
  unfoldable pub get_w3 : Exec State (Unit {0})
  get_w3 (r, w) =
      let (connected, w₁) = X.is_connected w in
      if r.has_w3
      then (ok tt, (r, w))
      else if connected
      then (ok tt, (record r { has_w3 = true }, w₁))
      else (raised connection_error, (r, w₁))

  abbrev pub accounts : Exec State (List Text)
  accounts = on_second (call X.accounts)

  abbrev pub set_contracts : X.Contract → X.Contract → Exec State (Unit {0})
  set_contracts did meta (r, w) =
      (ok tt, (record r { did_registry = some did; meta_tx_relay = some meta }, w))

  pub record DeployInfo : Type 0 where
    pub did_registry_address : Text
    pub meta_tx_relay_address : Text
    pub deployer : Text
    pub deploy_gas : ℕ

  unfoldable pub deploy_contracts : Exec State DeployInfo
  deploy_contracts = do
    get_w3
    all_accounts ← accounts
    on_second artifacts
    deployer ← lift (account_at 0 all_accounts)
    did ← on_second (X.deploy (codes "DIDRegistry") none deployer)
    meta ← on_second (X.deploy (codes "MetaTxRelay") (some did.address) deployer)
    set_contracts did.contract meta.contract
    pure (record {
      did_registry_address = did.address;
      meta_tx_relay_address = meta.address;
      deployer = deployer;
      deploy_gas = did.gas_used + meta.gas_used;
    })

  -- an attribute that is `None` until the deployment
  abbrev pub deployed : (HardhatRunner → Option X.Contract) → Exec State X.Contract
  deployed field (r, w) = or_raise (field r) attribute_error (r, w)

  unfoldable pub register_did : Bytes → Bytes → Text → Exec State ℕ
  register_did did_hash public_key sender = do
    contract ← deployed (λ r. r.did_registry)
    receipt ← on_second (X.transact contract (ContractCall.register_did did_hash public_key) sender)
    pure receipt.gas_used

  pub record RelayMetrics : Type 0 where
    pub gas_used : ℕ
    pub latency_ms : Float
    pub block_number : ℕ
    pub tx_hash : Text

  abbrev pub metrics_of : Float → Float → EvmReceipt → RelayMetrics
  metrics_of start stop receipt = record {
    gas_used = receipt.gas_used;
    latency_ms = P.mul (P.sub stop start) (P.float 1000);
    block_number = receipt.block_number;
    tx_hash = receipt.transaction_hash;
  }

  unfoldable pub submit_relay_transaction :
      Bytes → Bytes → Bytes → Bool → Text → Exec State RelayMetrics
  submit_relay_transaction data_hash did_hash signature verified sender = do
    start ← on_second (call P.perf_counter)
    contract ← deployed (λ r. r.meta_tx_relay)
    receipt ← on_second (
        X.transact contract (ContractCall.submit_transaction data_hash did_hash signature verified)
          sender)
    stop ← on_second (call P.perf_counter)
    pure (metrics_of start stop receipt)

  -- The loop of `run_gas_comparison`, from `i` on.
  unfoldable pub submit_all : Bytes → Text → ℕ → ℕ → Exec State (List RelayMetrics)
  submit_all did_hash relay i zero = pure []
  submit_all did_hash relay i (suc n) = do
    sig ← on_second (call (P.urandom falcon_512_signature_size_max))
    result ←
        submit_relay_transaction (P.sha256 (codes "test-data-" ++ decimal i)) did_hash sig true
          relay
    results ← submit_all did_hash relay (i + 1) n
    pure (result ∷ results)

  pub record GasComparison : Type 0 where
    pub transactions : ℕ
    pub did_registration_gas : ℕ
    pub relay_avg_gas : Float
    pub relay_min_gas : ℕ
    pub relay_max_gas : ℕ
    pub relay_avg_latency_ms : Float
    pub did_registry : Text
    pub meta_tx_relay : Text

  abbrev pub float_sum : Float → List Float → Float
  float_sum acc [] = acc
  float_sum acc (x ∷ xs) = float_sum (P.add acc x) xs

  -- The end of `run_gas_comparison`; the mean of no transactions is a division by zero.
  unfoldable pub summary : ℕ → DeployInfo → ℕ → List RelayMetrics → Result GasComparison
  summary num_transactions info reg_gas [] = raised zero_division_error
  summary num_transactions info reg_gas (m ∷ ms) =
      let costs = map (λ m. m.gas_used) (m ∷ ms) in
      let latencies = map (λ m. m.latency_ms) (m ∷ ms) in
      let count = P.float (length (m ∷ ms)) in
      ok (record {
        transactions = num_transactions;
        did_registration_gas = reg_gas;
        relay_avg_gas = P.div (P.float (sum costs)) count;
        relay_min_gas = least m.gas_used (map (λ m. m.gas_used) ms);
        relay_max_gas = greatest m.gas_used (map (λ m. m.gas_used) ms);
        relay_avg_latency_ms = P.div (float_sum (P.float 0) latencies) count;
        did_registry = info.did_registry_address;
        meta_tx_relay = info.meta_tx_relay_address;
      })

  unfoldable pub run_gas_comparison : ℕ → Exec State GasComparison
  run_gas_comparison num_transactions = do
    get_w3
    all_accounts ← accounts
    info ← deploy_contracts
    owner ← lift (account_at 0 all_accounts)
    relay ← lift (account_at 1 all_accounts)
    let did_hash = P.sha256 (codes "did:falconiot:hardhat-test")
    pub_key ← on_second (call (P.urandom falcon_512_public_key_size))
    reg_gas ← register_did did_hash pub_key owner
    results ← submit_all did_hash relay 0 num_transactions
    lift (summary num_transactions info reg_gas results)

  -- `is_available`; a connection that `_get_w3` finds open is asked once more
  unfoldable pub is_available : Exec State Bool
  is_available s =
      let (r, (runner, w)) = get_w3 s in
      elim r [
        | ok _ ↦ let (connected, w₁) = X.is_connected w in (ok connected, (runner, w₁))
        | raised e ↦ (ok false, (runner, w))
      ]
