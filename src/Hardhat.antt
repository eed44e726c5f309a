-- ===== src/Hardhat.antt =====
-- class HardhatBackend of relay_system/hardhat_backend.py. Its lock makes each locked block one step.
pub mod Client
pub mod Decomposition
pub mod Recording
pub mod Mining
use post_quantum_iot_auth.Prelude.{
  ℕ, zero, suc, ◌+◌, ◌-◌, ◌*◌, ◌/◌, ◌%◌, ◌^◌, Bool, true, false, Option, none, some, List, [], ◌∷◌,
  ◌++◌, if◌then◌else◌, Bytes, Text, codes, length, take, contains, leb, ltb, min, max, sum,
}
use post_quantum_iot_auth.Python.{
  Result, ok, raised, connection_error, attribute_error, index_error, overflow_error, Exec, pure,
  raise, lift, call, or_raise, or_call, on_second, ◌>>=◌, ◌>>◌,
}
use post_quantum_iot_auth.Python.Text.{hex, fromhex, encode}
use post_quantum_iot_auth.Dict
use post_quantum_iot_auth.Dict.{Dict}
use post_quantum_iot_auth.Python.Integers.{to_bytes32}
use post_quantum_iot_auth.Platform.{Platform}
use post_quantum_iot_auth.Config.{falcon_512_public_key_size, falcon_512_signature_size_max}
use post_quantum_iot_auth.Chain.{Transaction, TxKind, direct, meta_transaction, get_or}
use post_quantum_iot_auth.Hardhat.Client.{
  Web3, Component, int, raw, EcdsaSignature, ContractCall, EvmReceipt, Deployed,
}

-- `xs[n]` of a list of accounts.
abbrev pub account_at : ℕ → List Text → Result Text
account_at n [] = raised index_error
account_at zero (a ∷ as_) = ok a
account_at (suc n) (a ∷ as_) = account_at n as_

-- `x.to_bytes(32, "big") if isinstance(x, int) else x`
unfoldable pub component_bytes : Component → Result Bytes
component_bytes (int n) = to_bytes32 n
component_bytes (raw b) = ok b

module _ (P : Platform) (X : Web3 P) where
  open P use {Float, World}

  -- What `deploy_contracts` sets: the three contracts, `_owner` and `_relay_account`.
  pub record Contracts : Type 0 where
    pub did_registry : X.Contract
    pub meta_tx_relay : X.Contract
    pub ecdsa_verify : X.Contract
    pub owner : Text
    pub relay_account : Text

  pub record HardhatBackend : Type 0 where
    pub has_w3 : Bool
    pub contracts : Option Contracts
    pub transactions : Dict (Transaction P)
    pub tx_order : List Text
    pub block_number : ℕ
    pub registered_dids : List Bytes
    pub ecdsa_keys : Dict (Text × Bytes)

  unfoldable pub new_backend : HardhatBackend
  new_backend = record {
    has_w3 = false;
    contracts = none;
    transactions = Dict.empty;
    tx_order = [];
    block_number = 0;
    registered_dids = [];
    ecdsa_keys = Dict.empty;
  }

  abbrev pub State : Type 0
  State = HardhatBackend × World

  -- `_get_w3`; the connection is opened once.
  unfoldable pub get_w3 : Exec State (Unit {0})
  get_w3 (b, w) =
      let (connected, w₁) = X.is_connected w in
      if b.has_w3
      then (ok tt, (b, w))
      else if connected
      then (ok tt, (record b { has_w3 = true }, w₁))
      else (raised connection_error, (b, w₁))

  unfoldable pub accounts : Exec State (List Text)
  accounts = on_second (call X.accounts)

  -- the assignments at the end of `deploy_contracts`
  abbrev pub set_contracts : Contracts → Exec State (Unit {0})
  set_contracts c (b, w) = (ok tt, (record b { contracts = some c }, w))

  -- `deploy_contracts`; the result is `deploy_gas`. What it sets is one record, so where the node has one
  -- account only, the exception leaves nothing set, while the source has set all but `_relay_account`.
  unfoldable pub deploy_contracts : Exec State ℕ
  deploy_contracts = do
    get_w3
    all_accounts ← accounts
    lift (X.load_artifact (codes "DIDRegistry"))
    lift (X.load_artifact (codes "MetaTxRelay"))
    lift (X.load_artifact (codes "ECDSAVerify"))
    owner ← lift (account_at 0 all_accounts)
    did ← on_second (X.deploy (codes "DIDRegistry") none owner)
    meta ← on_second (X.deploy (codes "MetaTxRelay") (some did.address) owner)
    ecdsa ← on_second (X.deploy (codes "ECDSAVerify") none owner)
    relay_account ← lift (account_at 1 all_accounts)
    set_contracts (record {
      did_registry = did.contract;
      meta_tx_relay = meta.contract;
      ecdsa_verify = ecdsa.contract;
      owner = owner;
      relay_account = relay_account;
    })
    pure (did.gas_used + meta.gas_used + ecdsa.gas_used)

  abbrev pub add_did : Bytes → Exec State (Unit {0})
  add_did h (b, w) = (ok tt, (record b { registered_dids = h ∷ b.registered_dids }, w))

  -- Before `deploy_contracts` the contracts are `None`, which has no `functions`.
  abbrev pub deployed : Exec State Contracts
  deployed (b, w) = or_raise b.contracts attribute_error (b, w)

  unfoldable pub register_new : Bytes → Bytes → Exec State (Unit {0})
  register_new did_hash public_key = do
    get_w3
    c ← deployed
    on_second (X.transact c.did_registry (ContractCall.register_did did_hash public_key) c.owner)
    add_did did_hash

  -- `_ensure_did_registered`
  unfoldable pub ensure_did_registered : Bytes → Bytes → Exec State (Unit {0})
  ensure_did_registered did_hash public_key (b, w) =
      if contains did_hash b.registered_dids
      then (ok tt, (b, w))
      else register_new did_hash public_key (b, w)

  abbrev new_ecdsa_key : Text → Result Text → Bytes → Exec State (Text × Bytes)
  new_ecdsa_key sender (raised e) key s = (raised e, s)
  new_ecdsa_key sender (ok address) key (b, w) = (
    ok (address, key),
    (record b { ecdsa_keys = Dict.insert sender (address, key) b.ecdsa_keys }, w),
  )

  -- `_get_ecdsa_key`
  unfoldable pub get_ecdsa_key : Text → Exec State (Text × Bytes)
  get_ecdsa_key sender (b, w) =
      let key = P.sha256 (encode sender) in
      elim (Dict.lookup sender b.ecdsa_keys) [
        | some pair ↦ (ok pair, (b, w))
        | none ↦ new_ecdsa_key sender (X.address_of key) key (b, w)
      ]

  -- The last lines of both submissions, from the receipt on.
  unfoldable pub record_receipt : Text → Text → TxKind → Float → EvmReceipt → Exec State Text
  record_receipt sender data_hash kind start receipt (b, w) =
      let (stop, w₁) = P.perf_counter w in
      let (now, w₂) = P.time w₁ in
      let tx_id = receipt.transaction_hash in
      (
        ok tx_id,
        (
          record b {
            block_number = max b.block_number receipt.block_number;
            transactions =
                Dict.insert tx_id
                  (record {
                    sender = sender;
                    data_hash = data_hash;
                    kind = kind;
                    gas_used = receipt.gas_used;
                    block_number = receipt.block_number;
                    latency_ms = P.mul (P.sub stop start) (P.float 1000);
                    timestamp = now;
                  })
                  b.transactions;
            tx_order = b.tx_order ++ tx_id ∷ [];
          },
          w₂,
        ),
      )

  abbrev pub signed_bytes : Text → Result Bytes
  signed_bytes data_hash =
      if leb 64 (length data_hash) then fromhex (take 64 data_hash) else ok (encode data_hash)

  unfoldable pub submit_transaction : Text → Text → ℕ → Bool → Exec State Text
  submit_transaction sender data_hash payload_size store_signature = do
    get_w3
    all_accounts ← accounts
    (address, private_key) ← get_ecdsa_key sender
    data_bytes ← lift (signed_bytes data_hash)
    let hash = X.keccak data_bytes
    sig ← lift (X.sign_hash hash private_key)
    r ← lift (component_bytes sig.r)
    s ← lift (component_bytes sig.s)
    start ← on_second (call P.perf_counter)
    c ← deployed
    from_ ← lift (account_at 2 all_accounts)
    receipt ← on_second (
        X.transact c.ecdsa_verify
          (if store_signature
            then ContractCall.submit_verify_and_store hash sig.v r s
            else ContractCall.submit_and_verify hash sig.v r s)
          from_)
    record_receipt sender data_hash (direct payload_size store_signature) start receipt

  -- The parameters of `submit_meta_transaction` that default to `None`.
  pub record MetaExtras : Type 0 where
    pub data_hash_bytes : Option Bytes
    pub did_hash_bytes : Option Bytes
    pub signature_bytes : Option Bytes
    pub did_public_key : Option Bytes

  unfoldable pub submit_meta_transaction : Text → Text → ℕ → Bool → MetaExtras → Exec State Text
  submit_meta_transaction relay_address data_hash signature_size did_active extras = do
    get_w3
    let data_hash_bytes = get_or extras.data_hash_bytes (P.sha256 (encode data_hash))
    let did_hash_bytes =
        get_or extras.did_hash_bytes (P.sha256 (codes "did:falconiot:default-device"))
    signature_bytes ←
        or_call extras.signature_bytes
          (on_second (call (P.urandom (min signature_size falcon_512_signature_size_max))))
    did_public_key ←
        or_call extras.did_public_key (on_second (call (P.urandom falcon_512_public_key_size)))
    ensure_did_registered did_hash_bytes did_public_key
    start ← on_second (call P.perf_counter)
    c ← deployed
    receipt ← on_second (
        X.transact c.meta_tx_relay
          (ContractCall.submit_transaction data_hash_bytes did_hash_bytes signature_bytes
            did_active)
          c.relay_account)
    record_receipt relay_address data_hash (meta_transaction signature_size) start receipt

  -- An item of `submit_batch_transaction`, with the keys that may be missing.
  pub record BatchItem : Type 0 where
    pub data_hash : Text
    pub signature_size : Option ℕ
    pub verified : Option Bool
    pub extras : MetaExtras

  unfoldable pub submit_batch_transaction : Text → List BatchItem → Exec State (List Text)
  submit_batch_transaction relay_address [] = pure []
  submit_batch_transaction relay_address (item ∷ rest) = do
    tx_id ←
        submit_meta_transaction relay_address item.data_hash
          (get_or item.signature_size falcon_512_signature_size_max) (get_or item.verified true)
          item.extras
    tx_ids ← submit_batch_transaction relay_address rest
    pure (tx_id ∷ tx_ids)

  unfoldable pub get_receipt : Text → HardhatBackend → Option (Transaction P)
  get_receipt tx_hash b = Dict.lookup tx_hash b.transactions

  unfoldable pub transaction_count : HardhatBackend → ℕ
  transaction_count b = length b.tx_order
