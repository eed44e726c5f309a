-- ===== src/Chain.antt =====
-- class SimulatedBlockchain of relay_system/iot_client.py. A method takes the object and the world
-- whose clocks and random sources it reads, and returns both after its result.
mod Include
pub mod Gas
pub mod Shape
pub mod History
use post_quantum_iot_auth.Prelude.{
  ℕ, suc, ◌+◌, ◌*◌, Bool, true, false, Option, none, some, List, [], ◌∷◌, ◌++◌, if◌then◌else◌,
  Bytes, Text, codes, length,
}
use post_quantum_iot_auth.Python.Text.{hex, encode}
use post_quantum_iot_auth.Dict
use post_quantum_iot_auth.Dict.{Dict}
use post_quantum_iot_auth.Platform.{Platform}
use post_quantum_iot_auth.Config.{falcon_512_signature_size_max}

abbrev pub gas_base_tx : ℕ
gas_base_tx = 21000

abbrev pub gas_ecdsa_verify : ℕ
gas_ecdsa_verify = 30000

abbrev pub gas_relay_meta_tx : ℕ
gas_relay_meta_tx = 821563

abbrev pub gas_per_byte_calldata : ℕ
gas_per_byte_calldata = 16

abbrev pub gas_theoretical_falcon : ℕ
gas_theoretical_falcon = 500000000

-- The entries that only one of the two kinds of transaction has.
pub data TxKind : Type 0 where
  direct : ℕ → Bool → TxKind
  meta_transaction : ℕ → TxKind

-- An item of a batch, with the keys that may be missing.
pub record BatchItem : Type 0 where
  pub data_hash : Text
  pub signature_size : Option ℕ
  pub verified : Option Bool

-- `d.get(key, default)`
abbrev pub get_or {ℓ} : {A : Type ℓ} → Option A → A → A
get_or none d = d
get_or (some a) d = a

-- The gas of a relayed submission; a refused one is charged for the attempt.
unfoldable pub meta_gas : Bool → ℕ
meta_gas did_active = if did_active then gas_relay_meta_tx else gas_base_tx + 50000

-- The gas of a direct submission.
unfoldable pub direct_gas : ℕ → Bool → ℕ
direct_gas payload_size store_signature =
    let base = gas_base_tx + gas_ecdsa_verify + gas_per_byte_calldata * payload_size in
    if store_signature then base + 40000 else base

module _ (P : Platform) where
  open P use {Float, World}

  -- A value of `_transactions`.
  pub record Transaction : Type 0 where
    pub sender : Text
    pub data_hash : Text
    pub kind : TxKind
    pub gas_used : ℕ
    pub block_number : ℕ
    pub latency_ms : Float
    pub timestamp : Float

  pub record SimulatedBlockchain : Type 0 where
    pub transactions : Dict Transaction
    pub tx_order : List Text
    pub block_number : ℕ
    pub block_timestamp : Option Float
    pub rng : P.Rng

  -- `SimulatedBlockchain(seed)`
  unfoldable pub new_blockchain : ℕ → SimulatedBlockchain
  new_blockchain seed = record {
    transactions = Dict.empty;
    tx_order = [];
    block_number = 0;
    block_timestamp = none;
    rng = P.seeded seed;
  }

  unfoldable pub transaction_count : SimulatedBlockchain → ℕ
  transaction_count c = length c.tx_order

  unfoldable pub get_receipt : Text → SimulatedBlockchain → Option Transaction
  get_receipt tx_hash c = Dict.lookup tx_hash c.transactions

  -- `_network_latency`
  unfoldable pub network_latency : SimulatedBlockchain → Float × SimulatedBlockchain
  network_latency c =
      let (latency, rng) = P.uniform (P.float 5) (P.float 25) c.rng in
      (latency, record c { rng = rng })

  -- `hashlib.sha256(f"{label}:{time.time()}:{uuid.uuid4()}".encode()).hexdigest()`
  unfoldable pub fresh_hash : Text → World → Text × World
  fresh_hash label w =
      let (now, w₁) = P.time w in
      let (id, w₂) = P.uuid4 w₁ in
      (
        hex (P.sha256 (encode (label ++ (codes ":" ++ (P.show_float now ++ (codes ":" ++ id)))))),
        w₂,
      )

  -- The dictionary that a submission stores.
  abbrev pub transaction : Text → Text → TxKind → ℕ → Float → Float → ℕ → Transaction
  transaction sender data_hash kind gas submit_time latency block = record {
    sender = sender;
    data_hash = data_hash;
    kind = kind;
    gas_used = gas;
    block_number = block;
    latency_ms = latency;
    timestamp = submit_time;
  }

  -- The last lines of both submissions: the next block, its time, the entry and the order.
  unfoldable pub include :
      Text → Text → Text → TxKind → ℕ → Float → SimulatedBlockchain → SimulatedBlockchain
  include tx_hash sender data_hash kind gas submit_time c =
      let (latency, c₁) = network_latency c in
      record c₁ {
        block_number = c₁.block_number + 1;
        block_timestamp = some (P.add submit_time (P.div latency (P.float 1000)));
        transactions =
            Dict.insert tx_hash
              (transaction sender data_hash kind gas submit_time latency (c₁.block_number + 1))
              c₁.transactions;
        tx_order = c₁.tx_order ++ tx_hash ∷ [];
      }

  unfoldable pub submit_transaction :
      Text → Text → ℕ → Bool → SimulatedBlockchain × World → Text × (SimulatedBlockchain × World)
  submit_transaction sender data_hash payload_size store_signature (c, w) =
      let (tx_hash, w₁) = fresh_hash (sender ++ (codes ":" ++ data_hash)) w in
      let gas_used = direct_gas payload_size store_signature in
      let (submit_time, w₂) = P.time w₁ in
      (
        tx_hash,
        (
          include tx_hash sender data_hash (direct payload_size store_signature) gas_used
              submit_time c,
          w₂,
        ),
      )

  unfoldable pub submit_meta_transaction :
      Text → Text → ℕ → Bool → SimulatedBlockchain × World → Text × (SimulatedBlockchain × World)
  submit_meta_transaction relay_address data_hash signature_size did_active (c, w) =
      let (tx_hash, w₁) =
        fresh_hash (codes "relay:" ++ (relay_address ++ (codes ":" ++ data_hash))) w in
      let (submit_time, w₂) = P.time w₁ in
      (
        tx_hash,
        (
          include tx_hash relay_address data_hash (meta_transaction signature_size)
              (meta_gas did_active) submit_time c,
          w₂,
        ),
      )

  abbrev with_latency : Float → Transaction → Transaction
  with_latency latency t = record t { latency_ms = latency }

  -- `receipt["latency_ms"] = self._network_latency() / n`, on the entry of `tx_hash` itself
  unfoldable pub amortize : Text → ℕ → SimulatedBlockchain → SimulatedBlockchain
  amortize tx_hash n c =
      let (latency, c₁) = network_latency c in
      elim (Dict.lookup tx_hash c₁.transactions) [
        | none ↦ c₁
        | some t ↦ record c₁ {
          transactions =
              Dict.insert tx_hash (with_latency (P.div latency (P.float n)) t) c₁.transactions;
        }
      ]

  -- The loop of `submit_batch_transaction`, over the rest of a batch of `n` items.
  unfoldable pub submit_items :
      Text
      → ℕ
      → List BatchItem
      → SimulatedBlockchain × World
      → List Text × (SimulatedBlockchain × World)
  submit_items relay_address n [] s = ([], s)
  submit_items relay_address n (item ∷ rest) s =
      let (tx_hash, (c, w)) =
        submit_meta_transaction relay_address item.data_hash
          (get_or item.signature_size falcon_512_signature_size_max) (get_or item.verified true)
          s in
      let (hashes, s') = submit_items relay_address n rest (amortize tx_hash n c, w) in
      (tx_hash ∷ hashes, s')

  -- `perf_counter()` is read once, and the reading is not used.
  unfoldable pub submit_batch_transaction :
      Text
      → List BatchItem
      → SimulatedBlockchain × World
      → List Text × (SimulatedBlockchain × World)
  submit_batch_transaction relay_address batch (c, w) =
      let (_, w₁) = P.perf_counter w in submit_items relay_address (length batch) batch (c, w₁)

  unfoldable pub compute_data_hash : Bytes → Text
  compute_data_hash payload = hex (P.sha256 payload)
