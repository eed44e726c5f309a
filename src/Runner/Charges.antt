-- ===== src/Runner/Charges.antt =====
-- What a batch of the relay path of relay_system/runner.py costs on the simulated blockchain.
use post_quantum_iot_auth.Prelude.{
  ℕ, suc, ◌+◌, ◌*◌, ◌≡◌, ◌∙◌, ap, Bool, true, List, [], ◌∷◌, arith, if◌then◌else◌, length, sum, All,
}
use post_quantum_iot_auth.Python.{Exec, pure, lift, ◌>>=◌}
use post_quantum_iot_auth.Python.Loops.{Returns_then, Returns, Returns-ok}
use post_quantum_iot_auth.Platform.{Platform}
use post_quantum_iot_auth.RelayNode.{RelayNode, Submitted, submit_verified_transaction}
use post_quantum_iot_auth.RelayNode.Submit.{submit_with_metrics}
use post_quantum_iot_auth.RelayNode.{Submitted, submit_verified_transaction}
use post_quantum_iot_auth.RelayNode.Submit.{submit_with_metrics}
use post_quantum_iot_auth.Runner.{Pending}
use post_quantum_iot_auth.Runner.Books.{IsVerified, Books}
use post_quantum_iot_auth.Runner.Simulated.{
  Relaying, gas_and_latency, submit_each, submit_batch, simulated_batches,
}

module _ (P : Platform) where
  -- The costs of `n` items, between two states of the relay node.
  record Charged (n : ℕ) (s : Relaying P) (costs : List ℕ) (t : Relaying P) : Type 0 where
    cost : sum costs ≡ 821563 * n
    sent : t.0.submitted_count ≡ s.0.submitted_count + n

  submit_each-Charged :
      (latency : P.Float) (items : List Pending) (s : Relaying P)
      → All IsVerified items
      → Returns (submit_each P latency items s) (λ out t. Charged (length items) s out.0 t)
  unfolding submit_each
  submit_each-Charged latency [] s v = record { cost = omega arith; sent = omega arith }
  submit_each-Charged latency (item ∷ items) s (good, rest) =
      let submit =
        submit_verified_transaction P item.device_did item.data_hash item.signature_bytes
          item.verified true in
      let (m, returned, count, _, told) =
        submit_with_metrics P item.device_did item.data_hash item.signature_bytes item.verified s.0
          s.1 in
      let gas : m.gas_used ≡ 821563 =
        told.0 ∙ ap (λ (b : Bool). if b then 821563 else 71000) good in
      let u = (submit s).1 in
      let Q =
        λ (out : List ℕ × List P.Float) (t : Relaying P). Charged (suc (length items)) s out.0 t in
      let join : ℕ × P.Float → List ℕ × List P.Float → Exec (Relaying P) (List ℕ × List P.Float) =
        λ charge out. pure (charge.0 ∷ out.0, P.add latency charge.1 ∷ out.1) in
      let later : Submitted P → Exec (Relaying P) (List ℕ × List P.Float) =
        λ v. lift (gas_and_latency P v) >>= λ charge. submit_each P latency items >>= join charge in
      Returns-ok submit later s Q returned (
        Returns_then (submit_each P latency items) (join (m.gas_used, m.total_latency_ms)) u
          (λ out t. Charged (length items) u out.0 t) Q (submit_each-Charged latency items u rest)
          (λ out t c. record {
            cost = omega (arith, c.cost, gas);
            sent = omega (arith, c.sent, count);
          }))

  -- Each transaction has cost 821563 gas, and is one that the relay node counts.
  abbrev pub IsCharged : ℕ → ℕ → RelayNode P → Type 0
  IsCharged gas count relay = (gas ≡ 821563 * count) × (relay.submitted_count ≡ count)

  pub simulated_batches-Books : Books P (simulated_batches P) IsCharged
  unfolding submit_batch
  simulated_batches-Books latency items gas count relay w v (charged, sent) =
      let total : List ℕ × List P.Float → Exec (Relaying P) (ℕ × List P.Float) =
        λ o. pure (sum o.0, o.1) in
      Returns_then (submit_each P latency items) total (relay, w)
        (λ out t. Charged (length items) (relay, w) out.0 t)
        (λ out t. IsCharged (gas + out.0) (count + length items) t.0)
        (submit_each-Charged latency items (relay, w) v)
        (λ out t c. (omega (arith, c.cost, charged), omega (arith, c.sent, sent)))
