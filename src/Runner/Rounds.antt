-- ===== src/Runner/Rounds.antt =====
-- The relay path of relay_system/runner.py, on any kind of blockchain: every reading is submitted once
-- or counted as a failure.
use post_quantum_iot_auth.Prelude.{
  ℕ, ◌+◌, ◌*◌, ◌≡◌, refl, ap, ◌⊎◌, inl, inr, Bool, true, false, some, List, [], ◌∷◌, ◌++◌, arith,
  Bytes, Text, length, All, All-map, subst,
}
use post_quantum_iot_auth.Python.{Result, ok, raised, ◌>>◌}
use post_quantum_iot_auth.Python.Loops.{
  repeat, for_each, Returns, Returns-bind, Returns-ok, Returns-weaken, Advances, repeat-Advances,
  for_each-Advances,
}
use post_quantum_iot_auth.Platform.{Platform}
use post_quantum_iot_auth.Falcon.{Flags, falcon_verify}
use post_quantum_iot_auth.Falcon.Crypto.{Libraries}
use post_quantum_iot_auth.Device.{IotDevice, generate_sensor_data, sign_data}
use post_quantum_iot_auth.Gateway.{Gateway, GatewayResult, relay_data, relay_result}
use post_quantum_iot_auth.Runner.{
  Batches, RelayRun, with_world, with_gateway, finish_round, verify_and_queue, relay_round, flush,
  relay_loops, new_relay_run, relay_path, RelayReport, report,
}
use post_quantum_iot_auth.Runner.Books.{
  Ledger, Books, IsReady, IsBalanced, accept_or_fail-IsBalanced, flush-IsReady,
}
use post_quantum_iot_auth.Runner.{finish}

module _ (P : Platform) where
  module _ (L : Libraries P) (f : Flags) where
    -- Signing with the device's key returns, and so does the verification of what it signed; if
    -- `strict`, that accepts.
    pub record Signs (strict : Bool) (d : IotDevice) : Type 0 where
      pub at :
          (payload : Bytes) (w : P.World)
          → (s : Bytes) × (b : Bool) × ((sign_data P L f d payload w).0 ≡ ok s)
            × (falcon_verify P L f payload s d.keypair.public_key ≡ ok b)
            × ((strict ≡ false) ⊎ (b ≡ true))

    pub relay_data-ok :
        (did : Text) (key payload s : Bytes) (b : Bool) (g : Gateway P) (w : P.World)
        → falcon_verify P L f payload s key ≡ ok b
        → (result : GatewayResult P) × ((relay_data P L f did key payload s (g, w)).0 ≡ ok result)
          × (result.verified ≡ b)
    unfolding relay_data
    relay_data-ok did key payload s b g w e =
        let (start, w₁) = P.perf_counter w in
        (_, ap (λ v. (relay_result P L f did payload start v (g, w₁)).0) e, refl)

    module _ (B : Batches P) (J : Ledger P B) (books : Books P B J) where
      relay_round-IsBalanced :
          (strict : Bool) (size batch_size : ℕ) (d : IotDevice)
          → Signs strict d
          → Advances (IsBalanced P B J strict batch_size) 1 (relay_round P B L f size batch_size d)
      unfolding relay_round
      relay_round-IsBalanced strict size batch_size d signs k r h =
          let (payload, w₁) = generate_sensor_data P d size r.world in
          let (s, b, signed, judged, allowed) = signs.at payload w₁ in
          let w₂ = (sign_data P L f d payload w₁).1 in
          let (t0, w₃) = P.perf_counter w₂ in
          let (result, returned, verdict) =
            relay_data-ok d.did d.keypair.public_key payload s b r.gateway w₃ judged in
          let Q =
            λ (_ : Unit {0}) (r' : RelayRun P B). IsBalanced P B J strict batch_size (k + 1) r' in
          let r₁ : RelayRun P B = record r { world = w₁ } in
          let r₃ : RelayRun P B = record r { world = w₃ } in
          let deliver = with_gateway P B (relay_data P L f d.did d.keypair.public_key payload s) in
          let r₄ = (deliver r₃).1 in
          let (t1, w₅) = P.perf_counter r₄.world in
          let latency = P.mul (P.sub t1 t0) (P.float 1000) in
          Returns-ok (with_world P B (sign_data P L f d payload))
            (verify_and_queue P B L f batch_size d payload) r₁ Q signed
            (Returns-ok deliver (finish_round P B batch_size d payload s t0) r₃ Q returned (
              accept_or_fail-IsBalanced P B J books strict batch_size k d payload s result
                (record r₄ {
                  world = w₅;
                  verify_latency = some latency;
                  verify_latencies = r₄.verify_latencies ++ latency ∷ [];
                })
                latency (rw verdict allowed) refl
                (record {
                  balance = h.ready.balance;
                  ledger = h.ready.ledger;
                  verified = h.ready.verified;
                  clean = h.ready.clean;
                })
                h.bounded))

      new_relay_run-IsBalanced :
          (strict : Bool) (batch_size : ℕ) (relay : B.Relay) (w : P.World)
          → J 0 0 relay
          → IsBalanced P B J strict batch_size 0 (new_relay_run P B relay w)
      unfolding new_relay_run
      new_relay_run-IsBalanced strict batch_size relay w opened = record {
        ready = record { balance = omega arith; ledger = opened; verified = tt; clean = inr refl };
        known = inl refl;
        bounded = inl refl;
      }

      relay_loops-IsReady :
          (strict : Bool) (size batch_size n : ℕ) (devices : List IotDevice) (relay : B.Relay)
          (w : P.World)
          → J 0 0 relay
          → All (Signs strict) devices
          → Returns
              (relay_loops P B L f size batch_size n devices (new_relay_run P B relay w))
              (λ _ r. IsReady P B J strict (length devices * n) r × (r.pending ≡ []))
      unfolding relay_loops
      relay_loops-IsReady strict size batch_size n devices relay w opened a =
          let I = IsBalanced P B J strict batch_size in
          let round = λ (d : IotDevice). repeat n (relay_round P B L f size batch_size d) in
          let all = for_each devices round in
          let s = new_relay_run P B relay w in
          let total = 0 + length devices * n in
          let Q =
            λ (_ : Unit {0}) (r : RelayRun P B). IsReady P B J strict total r × (r.pending ≡ []) in
          let e : total ≡ length devices * n = omega arith in
          subst
            (λ j.
              Returns ((all >> flush P B) s) (λ _ r. IsReady P B J strict j r × (r.pending ≡ [])))
            e
            (Returns-bind all (λ _. flush P B) s Q
              (Returns-weaken (all s).0 (all s).1 (λ _ t. I total t)
                (λ _ t. Returns (flush P B t) Q)
                (λ _ t h. flush-IsReady P B J books strict batch_size total t h)
                (for_each-Advances I devices n round
                  (All-map (Signs strict) (λ d. Advances I n (round d)) devices
                    (λ d signs.
                      repeat-Advances I n (relay_round P B L f size batch_size d)
                        (relay_round-IsBalanced strict size batch_size d signs))
                    a)
                  0 s (new_relay_run-IsBalanced strict batch_size relay w opened))))

      -- A report for `n` readings: they are submitted or failed, and the ledger has what it says.
      pub record Accounts (strict : Bool) (n : ℕ) (value : RelayReport P) (relay : B.Relay)
          : Type 0 where
        pub complete : value.total_transactions + value.failed_verifications ≡ n
        pub ledger : J value.total_gas value.total_transactions relay
        pub clean : (strict ≡ false) ⊎ (value.failed_verifications ≡ 0)

      finish-Accounts :
          (strict : Bool) (n : ℕ) (start : P.Float) (out : Result (Unit {0}) × RelayRun P B)
          → Returns out (λ _ r. IsReady P B J strict n r × (r.pending ≡ []))
          → Returns (finish P B start out) (λ value t. Accounts strict n value t.0)
      unfolding report
      finish-Accounts strict n start (ok u, r) (h, e) = record {
        complete = ground (arith, h.balance, e);
        ledger = h.ledger;
        clean = h.clean;
      }
      finish-Accounts strict n start (raised x, r) h = absurd h

      pub relay_path-Accounts :
          (strict : Bool) (size batch_size n : ℕ) (devices : List IotDevice) (relay : B.Relay)
          (w : P.World)
          → J 0 0 relay
          → All (Signs strict) devices
          → Returns
              (relay_path P B L f size batch_size n devices (relay, w))
              (λ value t. Accounts strict (length devices * n) value t.0)
      unfolding relay_path
      relay_path-Accounts strict size batch_size n devices relay w opened a =
          let (start, w₁) = P.perf_counter w in
          finish-Accounts strict (length devices * n) start
            (relay_loops P B L f size batch_size n devices (new_relay_run P B relay w₁))
            (relay_loops-IsReady strict size batch_size n devices relay w₁ opened a)
