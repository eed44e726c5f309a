-- ===== src/RelayNode.antt =====
-- class RelayNode of relay_system/relay.py. The node holds its blockchain.
pub mod Submit
use post_quantum_iot_auth.Prelude.{
  ℕ, ◌+◌, Bool, true, false, Option, none, some, List, [], ◌∷◌, Bytes, Text, length, if◌then◌else◌,
}
use post_quantum_iot_auth.Python.{Result, ok, raised, type_error, Exec, pure, ◌>>=◌}
use post_quantum_iot_auth.Platform.{Platform}
use post_quantum_iot_auth.Chain.{
  SimulatedBlockchain, Transaction, submit_meta_transaction, get_receipt,
}
use post_quantum_iot_auth.Gateway.{GatewayResult}

module _ (P : Platform) where
  open P use {Float, World}

  pub record RelayNode : Type 0 where
    pub relay_id : Text
    pub blockchain : SimulatedBlockchain P
    pub submitted_count : ℕ

  unfoldable pub new_relay : Text → SimulatedBlockchain P → RelayNode
  new_relay relay_id blockchain = record {
    relay_id = relay_id;
    blockchain = blockchain;
    submitted_count = 0;
  }

  pub record Metrics : Type 0 where
    pub tx_hash : Text
    pub total_latency_ms : Float
    pub gas_used : ℕ
    pub block_number : ℕ

  -- A submission returns a hash, or a dictionary with `return_metrics=True`.
  pub data Submitted : Type 0 where
    hash_only : Text → Submitted
    metrics : Metrics → Submitted

  -- the dictionary of metrics; a receipt that is missing is `None`, which has no entries
  abbrev pub with_receipt : Text → Float → Option (Transaction P) → Result Submitted
  with_receipt tx_hash total_latency none = raised type_error
  with_receipt tx_hash total_latency (some receipt) = ok (
      metrics (record {
        tx_hash = tx_hash;
        total_latency_ms = P.add total_latency receipt.latency_ms;
        gas_used = receipt.gas_used;
        block_number = receipt.block_number;
      }))

  unfoldable pub submit_verified_transaction :
      Text → Text → Bytes → Bool → Bool → Exec (RelayNode × World) Submitted
  submit_verified_transaction device_did data_hash signature verified return_metrics (r, w) =
      let (start, w₁) = P.perf_counter w in
      let (tx_hash, (chain, w₂)) =
        submit_meta_transaction P r.relay_id data_hash (length signature) verified
          (r.blockchain, w₁) in
      let (stop, w₃) = P.perf_counter w₂ in
      let total_latency = P.mul (P.sub stop start) (P.float 1000) in
      let r' : RelayNode = record r {
        blockchain = chain;
        submitted_count = r.submitted_count + 1;
      } in
      (
        if return_metrics
            then with_receipt tx_hash total_latency (get_receipt P tx_hash chain)
            else ok (hash_only tx_hash),
        (r', w₃),
      )

  -- The loop of `submit_batch` and of `submit_batch_with_metrics`, over `zip(batch, signatures)`.
  unfoldable pub submit_zip :
      Bool → List (GatewayResult P) → List Bytes → Exec (RelayNode × World) (List Submitted)
  submit_zip return_metrics [] signatures = pure []
  submit_zip return_metrics (item ∷ batch) [] = pure []
  submit_zip return_metrics (item ∷ batch) (sig ∷ signatures) = do
    first ←
        submit_verified_transaction item.device_did item.data_hash sig item.verified return_metrics
    rest ← submit_zip return_metrics batch signatures
    pure (first ∷ rest)

  unfoldable pub submit_batch :
      List (GatewayResult P) → List Bytes → Exec (RelayNode × World) (List Submitted)
  submit_batch = submit_zip false

  unfoldable pub submit_batch_with_metrics :
      List (GatewayResult P) → List Bytes → Exec (RelayNode × World) (List Submitted)
  submit_batch_with_metrics = submit_zip true
