-- ===== src/Runner/Receipted.antt =====
-- Every reading of the direct path of relay_system/runner.py is one transaction.
use post_quantum_iot_auth.Prelude.{
  Text, ℕ, ◌+◌, ◌*◌, ◌/◌, ◌≡◌, refl, true, some, List, arith, Bytes, length, All-of, subst, true,
}
use post_quantum_iot_auth.Python.{Result, ok, raised}
use post_quantum_iot_auth.Python.Text.{hex, length-hex}
use post_quantum_iot_auth.Python.Loops.{
  Returns-bind, Returns_value, Returns_of, repeat, for_each, Returns, Advances, repeat-Advances,
  for_each-Advances,
}
use post_quantum_iot_auth.Platform.{Platform, IsDocumented}
use post_quantum_iot_auth.Device.{IotDevice, generate_sensor_data}
use post_quantum_iot_auth.Chain.{SimulatedBlockchain, Transaction, new_blockchain}
use post_quantum_iot_auth.Chain.Gas.{get_receipt-submit_transaction}
use post_quantum_iot_auth.Runner.Direct.{
  Blockchains, DirectReport, DirectRun, with_chain, add_receipt_of, direct_round, direct_loops,
  finish_direct, direct_report, new_direct_run, direct_path, simulated_chains, run_direct_path,
}

module _ (P : Platform) where
  open P use {World}

  -- What a kind of blockchain keeps of the gas and of the number of its transactions.
  abbrev pub Ledger : Blockchains P → Type 1
  Ledger C = ℕ → ℕ → C.Chain → Type 0

  -- The hash of a payload is submitted and has a receipt, with whose gas the ledger goes on.
  abbrev pub Records : (C : Blockchains P) → Ledger C → Type 0
  Records C J =
      (did : Text) (payload : Bytes) (gas count : ℕ) (chain : C.Chain) (w : World)
      → J gas count chain
      → let data_hash = hex (P.sha256 payload) in
        Returns (C.submit_transaction did data_hash (length data_hash / 2) true (chain, w)) (λ h t.
          (tx : Transaction P) × (C.get_receipt h t.0 ≡ some tx)
          × J (gas + tx.gas_used) (count + 1) t.0)

  module _ (C : Blockchains P) (J : Ledger C) where
    -- The books after `k` submissions.
    record IsBooked (k : ℕ) (r : DirectRun P C) : Type 0 where
      count : r.total_transactions ≡ k
      ledger : J r.total_gas r.total_transactions r.blockchain

    add_receipt_of-IsBooked :
        (h : Result Text) (chain : C.Chain) (w : World) (k : ℕ) (r : DirectRun P C)
        → r.total_transactions ≡ k
        → Returns {S = C.Chain × World}
            (h, (chain, w))
            (λ h t.
              (tx : Transaction P) × (C.get_receipt h t.0 ≡ some tx)
              × J (r.total_gas + tx.gas_used) (r.total_transactions + 1) t.0)
        → Returns
            (h, record r { blockchain = chain; world = w })
            (λ h r'. Returns (add_receipt_of P C h r') (λ _ r'. IsBooked (k + 1) r'))
    add_receipt_of-IsBooked (ok h) chain w k r e (tx, found, booked) =
        rw found (record { count = omega (arith, e); ledger = booked })
    add_receipt_of-IsBooked (raised x) chain w k r e h = absurd h

    module _ (records : Records C J) where
      direct_round-IsBooked :
          (size : ℕ) (d : IotDevice) → Advances IsBooked 1 (direct_round P C size d)
      unfolding direct_round
      direct_round-IsBooked size d k r h =
          let (payload, w) = generate_sensor_data P d size r.world in
          let data_hash = hex (P.sha256 payload) in
          let submit = C.submit_transaction d.did data_hash (length data_hash / 2) true in
          let out = submit (r.blockchain, w) in
          let r₁ : DirectRun P C = record r { world = w } in
          Returns-bind (with_chain P C submit) (add_receipt_of P C) r₁ (λ _ r'. IsBooked (k + 1) r')
            (add_receipt_of-IsBooked out.0 out.1.0 out.1.1 k r₁ h.count
              (records d.did payload r.total_gas r.total_transactions r.blockchain w h.ledger))

      direct_loops-IsBooked :
          (size n : ℕ) (devices : List IotDevice) (chain : C.Chain) (w : World)
          → J 0 0 chain
          → Returns
              (direct_loops P C size n devices (new_direct_run P C chain w))
              (λ _ r. IsBooked (length devices * n) r)
      unfolding direct_loops new_direct_run
      direct_loops-IsBooked size n devices chain w opened =
          let round = λ (d : IotDevice). repeat n (direct_round P C size d) in
          let e : 0 + length devices * n ≡ length devices * n = omega arith in
          subst
            (λ k.
              Returns (for_each devices round (new_direct_run P C chain w)) (λ _ r. IsBooked k r))
            e
            (for_each-Advances IsBooked devices n round
              (All-of
                (λ d.
                  repeat-Advances IsBooked n (direct_round P C size d)
                    (direct_round-IsBooked size d))
                devices)
              0 (new_direct_run P C chain w) (record { count = refl; ledger = opened }))

      -- A report on `n` readings, each of them one transaction of the ledger.
      abbrev pub IsReport : ℕ → DirectReport P → C.Chain → Type 0
      IsReport n r chain = (r.total_transactions ≡ n) × J r.total_gas r.total_transactions chain

      finish_direct-IsReport :
          (n : ℕ) (start : P.Float) (out : Result (Unit {0}) × DirectRun P C)
          → Returns out (λ _ r. IsBooked n r)
          → Returns (finish_direct P C start out) (λ r t. IsReport n r t.0)
      unfolding direct_report
      finish_direct-IsReport n start (ok u, r) h = (h.count, h.ledger)
      finish_direct-IsReport n start (raised e, r) h = absurd h

      pub direct_path-IsReport :
          (size n : ℕ) (devices : List IotDevice) (chain : C.Chain) (w : World)
          → J 0 0 chain
          → Returns
              (direct_path P C size n devices (chain, w))
              (λ r t. IsReport (length devices * n) r t.0)
      unfolding direct_path
      direct_path-IsReport size n devices chain w opened =
          let (start, w₁) = P.perf_counter w in
          finish_direct-IsReport (length devices * n) start _
            (direct_loops-IsBooked size n devices chain w₁ opened)

  -- What `run_direct_path` returns for `n` readings.
  abbrev pub IsDirect : ℕ → DirectReport P → Type 0
  IsDirect n r = (r.total_transactions ≡ n) × (r.total_gas ≡ 91512 * n)

  -- Each transaction has cost 91512 gas.
  abbrev IsCharged : ℕ → ℕ → SimulatedBlockchain P → Type 0
  IsCharged gas count chain = gas ≡ 91512 * count

  module _ (doc : IsDocumented P) where
    -- The hash of a payload is 32 bytes long.
    length-digest : (b : Bytes) → length (hex (P.sha256 b)) / 2 ≡ 32
    length-digest b = omega (arith, length-hex (P.sha256 b), doc.sha256_size b)

    simulated_chains-Records : Records (simulated_chains P) IsCharged
    simulated_chains-Records did payload gas count chain w charged =
        let data_hash = hex (P.sha256 payload) in
        let (t, found, is) =
          get_receipt-submit_transaction P did data_hash (length data_hash / 2) true chain w in
        (t, found, omega (arith, charged, is.gas_is, length-digest payload))

    -- The direct path returns, and each reading is one transaction of 91512 gas: 51000, 16 for each
    -- of the 32 bytes of the hash, and 40000 for the signature.
    pub run_direct_path-IsDirect :
        (size n : ℕ) (devices : List IotDevice) (w : World)
        → Returns (run_direct_path P size n devices w) (λ r _. IsDirect (length devices * n) r)
    unfolding run_direct_path
    run_direct_path-IsDirect size n devices w =
        let C = simulated_chains P in
        let out = direct_path P C size n devices (new_blockchain P 42, w) in
        let (r, returned, (count, charged)) = Returns_value out.0 out.1 _ (
          direct_path-IsReport C IsCharged simulated_chains-Records size n devices
            (new_blockchain P 42) w refl) in
        Returns_of out.0 out.1.1 _ returned (count, ground (arith, count, charged))
