-- ===== src/RelayNode/Submit.antt =====
-- A relay node never raises, and each of its submissions is one transaction of its blockchain.
use post_quantum_iot_auth.Prelude.{
  ℕ, ◌+◌, ◌≡◌, refl, ◌∙◌, Bool, true, false, List, [], ◌∷◌, ◌++◌, Bytes, Text, if◌then◌else◌,
  length, some, Option,
}
use post_quantum_iot_auth.Python.{ok}
use post_quantum_iot_auth.Platform.{Platform}
use post_quantum_iot_auth.Chain.{Transaction}
use post_quantum_iot_auth.Chain.Gas.{get_receipt-submit_meta_transaction}
use post_quantum_iot_auth.Chain.History.{order-submit_meta_transaction}
use post_quantum_iot_auth.RelayNode.{
  RelayNode, Submitted, hash_only, metrics, Metrics, with_receipt, submit_verified_transaction,
}

module _ (P : Platform) where
  abbrev State : Type 0
  State = RelayNode P × P.World

  abbrev pub hash_of : Submitted P → Text
  hash_of (hash_only h) = h
  hash_of (metrics m) = m.tx_hash

  -- What the caller is told of the gas and the block; nothing without metrics.
  abbrev pub Reports : Submitted P → ℕ → ℕ → Type 0
  Reports (hash_only h) gas block = Unit
  Reports (metrics m) gas block = (m.gas_used ≡ gas) × (m.block_number ≡ block)

  with_receipt-some :
      (h : Text) (latency : P.Float) {o : Option (Transaction P)} (t : Transaction P)
      → o ≡ some t
      → (m : Metrics P) × (with_receipt P h latency o ≡ ok (metrics m))
        × (m.tx_hash ≡ h)
        × (m.gas_used ≡ t.gas_used)
        × (m.block_number ≡ t.block_number)
  with_receipt-some h latency t e = (
    record {
      tx_hash = h;
      total_latency_ms = P.add latency t.latency_ms;
      gas_used = t.gas_used;
      block_number = t.block_number;
    },
    rw e refl,
    refl,
    refl,
    refl,
  )

  -- With metrics the result is a dictionary.
  pub submit_with_metrics :
      (did data_hash : Text) (signature : Bytes) (verified : Bool) (r : RelayNode P) (w : P.World)
      → let (result, s) =
          submit_verified_transaction P did data_hash signature verified true (r, w) in
        (m : Metrics P) × (result ≡ ok (metrics m))
        × (s.0.submitted_count ≡ r.submitted_count + 1)
        × (s.0.blockchain.tx_order ≡ r.blockchain.tx_order ++ m.tx_hash ∷ [])
        × Reports (metrics m) (if verified then 821563 else 71000) (r.blockchain.block_number + 1)
  unfolding submit_verified_transaction
  submit_with_metrics did data_hash signature verified r w =
      let w₁ = (P.perf_counter w).1 in
      let size = length signature in
      let (t, found, is) =
        get_receipt-submit_meta_transaction P r.relay_id data_hash size verified r.blockchain w₁ in
      let (m, made, hash, gas, block) = with_receipt-some _ _ t found in
      (
        m,
        made,
        refl,
        rw hash
            (order-submit_meta_transaction P r.relay_id data_hash size verified (r.blockchain, w₁)),
        (gas ∙ is.gas_is, block ∙ is.block_is),
      )

  -- A submission returns, with or without metrics; its hash comes last in the order of the
  -- blockchain, and both the counter and the order grow by it alone. The metrics tell the gas, 821563
  -- for a verified item and 71000 for any other, and the number of the new block.
  pub submit_verified_transaction_lem :
      (did data_hash : Text) (signature : Bytes) (verified return_metrics : Bool) (r : RelayNode P)
      (w : P.World)
      → let (result, s) =
          submit_verified_transaction P did data_hash signature verified return_metrics (r, w) in
        (v : Submitted P) × (result ≡ ok v)
        × (s.0.submitted_count ≡ r.submitted_count + 1)
        × (s.0.blockchain.tx_order ≡ r.blockchain.tx_order ++ hash_of v ∷ [])
        × Reports v (if verified then 821563 else 71000) (r.blockchain.block_number + 1)
  unfolding submit_verified_transaction
  submit_verified_transaction_lem did data_hash signature verified true r w =
      let (m, made, count, order, told) =
        submit_with_metrics did data_hash signature verified r w in
      (metrics m, made, count, order, told)
  submit_verified_transaction_lem did data_hash signature verified false r w = (
    hash_only _,
    refl,
    refl,
    order-submit_meta_transaction P r.relay_id data_hash (length signature) verified _,
    tt,
  )
