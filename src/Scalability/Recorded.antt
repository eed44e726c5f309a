-- ===== src/Scalability/Recorded.antt =====
-- ScalabilityRunner.run of scalability/scalability_runner.py on a node that mines: what is submitted is
-- recorded.
use post_quantum_iot_auth.Prelude.{
  ℕ, suc, ◌+◌, ◌≡◌, refl, subst, List, [], ◌∷◌, true, some, codes, arith, length, sum,
}
use post_quantum_iot_auth.Python.{Exec, pure, ◌>>=◌}
use post_quantum_iot_auth.Python.Text.{encode}
use post_quantum_iot_auth.Python.Loops.{Returns-ok, Returns-run, Returns_then}
use post_quantum_iot_auth.Platform.{Platform}
use post_quantum_iot_auth.Chain.{Transaction}
use post_quantum_iot_auth.Hardhat.Client.{Web3}
use post_quantum_iot_auth.Hardhat.{State}
use post_quantum_iot_auth.Hardhat.Recording.{log}
use post_quantum_iot_auth.Hardhat.Mining.{IsMining, meta_return}
use post_quantum_iot_auth.Runner.Backend.{receipt_of}
use post_quantum_iot_auth.Runner.RealBatch.{receipt_of-added}
use post_quantum_iot_auth.Runner.Recorded.{IsRecorded, IsRecorded-more}
use post_quantum_iot_auth.Scalability.Real.{submit_item, submit_items, real_submissions}
use post_quantum_iot_auth.Scalability.Phases.{Charges}

module _ (P : Platform) (X : Web3 P) (mining : IsMining P X) where
  abbrev Costs : Type 0
  Costs = List ℕ × List P.Float

  pub real_submissions-Charges : Charges P (real_submissions P X) (IsRecorded P X)
  unfolding submit_items
  real_submissions-Charges [] gas count b w h =
      let e : gas ≡ gas + 0 = omega arith in
      let e' : count ≡ count + 0 = omega arith in
      subst (λ g. IsRecorded P X g (count + 0) b) e (subst (λ c. IsRecorded P X gas c b) e' h)
  real_submissions-Charges (item ∷ items) gas count b w h =
      let s : State P X = (b, w) in
      let (tx, t, returned, entry, ready) =
        meta_return P X mining (codes "relay-scale") item.data_hash (length item.sig) true
          (record {
            data_hash_bytes = some (P.sha256 item.payload);
            did_hash_bytes = some (P.sha256 (encode item.device.did));
            signature_bytes = some item.sig;
            did_public_key = some item.device.keypair.public_key;
          })
          s h.ready in
      let u = (submit_item P X item s).1 in
      let k =
        IsRecorded-more P X gas count t.gas_used 1 b u.0 w u.1 ((tx, t) ∷ []) h ready entry refl
          (omega arith) in
      let rest = submit_items P X items in
      let add : Transaction P → Costs → Exec (State P X) Costs =
        λ m r. pure (m.gas_used ∷ r.0, m.latency_ms ∷ r.1) in
      let book = λ (m : Transaction P). rest >>= add m in
      let Q = λ (out : Costs) (v : State P X).
        IsRecorded P X (gas + sum out.0) (count + suc (length items)) v.0 in
      Returns-ok (submit_item P X item) (λ h. receipt_of P X h >>= book) s Q returned
        (Returns-run (receipt_of P X tx) book u Q (receipt_of-added P X tx t (log P X s) u entry) (
          Returns_then rest (add t) u
            (λ out v. IsRecorded P X (gas + t.gas_used + sum out.0) (count + 1 + length items) v.0)
            Q (real_submissions-Charges items (gas + t.gas_used) (count + 1) u.0 u.1 k)
            (λ out v r.
              let e : gas + t.gas_used + sum out.0 ≡ gas + (t.gas_used + sum out.0) = omega arith in
              let e' : count + 1 + length items ≡ count + suc (length items) = omega arith in
              subst (λ g. IsRecorded P X g (count + suc (length items)) v.0) e
                (subst (λ c. IsRecorded P X (gas + t.gas_used + sum out.0) c v.0) e' r))))
