-- ===== src/Runner/Books.antt =====
-- The books of the relay path of relay_system/runner.py, on any kind of blockchain: a batch adds what it
-- charges to them, and a round keeps them balanced.
use post_quantum_iot_auth.Prelude.{
  ℕ, ◌+◌, ◌<◌, ◌≡◌, refl, ap, ◌⊎◌, inl, inr, Bool, true, false, some, List, [], ◌∷◌, ◌++◌, arith,
  Bytes, length, length-append, leb, All, All-append, Bool-cases,
}
use post_quantum_iot_auth.Python.{Result, raised, ok, ◌>>=◌}
use post_quantum_iot_auth.Python.Loops.{Returns, Returns-bind, Returns-run, Returns-weaken}
use post_quantum_iot_auth.Platform.{Platform}
use post_quantum_iot_auth.Device.{IotDevice}
use post_quantum_iot_auth.Gateway.{GatewayResult}
use post_quantum_iot_auth.Runner.{
  Pending, pending_item, Batches, RelayRun, with_relay, bound_or_raise, read_latency, book_batch,
  submit_pending, submit_if_full, accept_or_fail, flush, flush_items,
}

abbrev pub IsVerified : Pending → Type 0
IsVerified item = item.verified ≡ true

module _ (P : Platform) where
  -- What a kind of blockchain keeps of the gas and of the number of the transactions that were booked.
  abbrev pub Ledger : Batches P → Type 1
  Ledger B = ℕ → ℕ → B.Relay → Type 0

  -- A batch of verified items returns, and the ledger then has its gas and its items too.
  abbrev pub Books : (B : Batches P) → Ledger B → Type 0
  Books B J =
      (latency : P.Float) (items : List Pending) (gas count : ℕ) (relay : B.Relay) (w : P.World)
      → All IsVerified items
      → J gas count relay
      → Returns (B.submit_batch latency items (relay, w))
          (λ out t. J (gas + out.0) (count + length items) t.0)

  module _ (B : Batches P) (J : Ledger B) where
    -- The books after `k` readings; `strict` says that no verification may have failed.
    pub record IsReady (strict : Bool) (k : ℕ) (r : RelayRun P B) : Type 0 where
      pub balance : r.total_transactions + r.failed_verifications + length r.pending ≡ k
      pub ledger : J r.total_gas r.total_transactions r.relay
      pub verified : All IsVerified r.pending
      pub clean : (strict ≡ false) ⊎ (r.failed_verifications ≡ 0)

    -- Between two readings a batch that waits is not full.
    pub record IsBalanced (strict : Bool) (batch_size k : ℕ) (r : RelayRun P B) : Type 0 where
      pub ready : IsReady strict k r
      pub known : (r.pending ≡ []) ⊎ ((l : P.Float) × (r.verify_latency ≡ some l))
      pub bounded : (r.pending ≡ []) ⊎ (length r.pending < batch_size)

    read_latency-some :
        (r : RelayRun P B) (l : P.Float)
        → r.verify_latency ≡ some l
        → read_latency P B r ≡ (ok l, r)
    read_latency-some r l e = ap (λ o. bound_or_raise P B o r) e

    with_relay-Returns :
        {A : Type 0} (a : Result A) (n : B.Relay) (w : P.World) (r : RelayRun P B)
        (F : A → B.Relay × P.World → Type 0) (Q : A → RelayRun P B → Type 0)
        → ((x : A) → F x (n, w) → Q x (record r { relay = n; world = w }))
        → Returns (a, (n, w)) F
        → Returns (a, record r { relay = n; world = w }) Q
    with_relay-Returns (ok x) n w r F Q k h = k x h
    with_relay-Returns (raised e) n w r F Q k h = absurd h

    module _ (books : Books B J) where
      submit_pending-IsReady :
          (strict : Bool) (k : ℕ) (r : RelayRun P B) (l : P.Float)
          → r.verify_latency ≡ some l
          → IsReady strict k r
          → Returns (submit_pending P B r) (λ _ r'. IsReady strict k r' × (r'.pending ≡ []))
      unfolding submit_pending
      submit_pending-IsReady strict k r l e h =
          let Q = λ (_ : Unit {0}) (r' : RelayRun P B). IsReady strict k r' × (r'.pending ≡ []) in
          let batch = B.submit_batch l r.pending in
          let out = batch (r.relay, r.world) in
          Returns-run (read_latency P B)
            (λ latency. with_relay P B (B.submit_batch latency r.pending) >>= book_batch P B) r Q
            (read_latency-some r l e)
            (Returns-bind (with_relay P B batch) (book_batch P B) r Q (
              with_relay-Returns out.0 out.1.0 out.1.1 r
                (λ o t. J (r.total_gas + o.0) (r.total_transactions + length r.pending) t.0)
                (λ o r'. Q tt (book_batch P B o r').1)
                (λ o booked. (
                  record {
                    balance = omega (arith, h.balance);
                    ledger = booked;
                    verified = tt;
                    clean = h.clean;
                  },
                  refl,
                ))
                (books l r.pending r.total_gas r.total_transactions r.relay r.world h.verified
                  h.ledger)))

      submit_if_full-IsBalanced :
          (strict : Bool) (batch_size k : ℕ) (r : RelayRun P B) (l : P.Float)
          → r.verify_latency ≡ some l
          → IsReady strict k r
          → Returns (submit_if_full P B batch_size r) (λ _ r'. IsBalanced strict batch_size k r')
      unfolding submit_if_full
      submit_if_full-IsBalanced strict batch_size k r l e h =
          elim (Bool-cases (leb batch_size (length r.pending))) [
            | inl full ↦ rw full (
                Returns-weaken (submit_pending P B r).0 (submit_pending P B r).1
                  (λ _ r'. IsReady strict k r' × (r'.pending ≡ []))
                  (λ _ r'. IsBalanced strict batch_size k r')
                  (λ _ r' b. record { ready = b.0; known = inl b.1; bounded = inl b.1 })
                  (submit_pending-IsReady strict k r l e h))
            | inr room ↦
                rw room (record { ready = h; known = inr (l, e); bounded = inr (ground arith) })
          ]

      pub accept_or_fail-IsBalanced :
          (strict : Bool) (batch_size k : ℕ) (device : IotDevice) (payload sig : Bytes)
          (result : GatewayResult P) (r : RelayRun P B) (l : P.Float)
          → (strict ≡ false) ⊎ (result.verified ≡ true)
          → r.verify_latency ≡ some l
          → IsReady strict k r
          → (r.pending ≡ []) ⊎ (length r.pending < batch_size)
          → Returns
              (accept_or_fail P B batch_size device payload sig result r)
              (λ _ r'. IsBalanced strict batch_size (k + 1) r')
      unfolding accept_or_fail pending_item
      accept_or_fail-IsBalanced strict batch_size k device payload sig result r l allowed e h
            bound =
          elim (Bool-cases result.verified) [
            | inl good ↦
                let item = pending_item P device payload sig result.data_hash in
                rw good (
                  submit_if_full-IsBalanced strict batch_size (k + 1)
                    (record r { pending = r.pending ++ item ∷ [] }) l e
                    (record {
                      balance = omega (arith, h.balance, length-append r.pending (item ∷ []));
                      ledger = h.ledger;
                      verified = All-append IsVerified r.pending (item ∷ []) h.verified (refl, tt);
                      clean = h.clean;
                    }))
            | inr bad ↦ rw bad (record {
              ready = record {
                balance = omega (arith, h.balance);
                ledger = h.ledger;
                verified = h.verified;
                clean = inl (ground (arith, allowed));
              };
              known = inr (l, e);
              bounded = bound;
            })
          ]

      flush_items-IsReady :
          (strict : Bool) (batch_size k : ℕ) (r : RelayRun P B) (items : List Pending)
          → r.pending ≡ items
          → IsBalanced strict batch_size k r
          → Returns (flush_items P B items r) (λ _ r'. IsReady strict k r' × (r'.pending ≡ []))
      flush_items-IsReady strict batch_size k r [] e h = (h.ready, e)
      flush_items-IsReady strict batch_size k r (item ∷ items) e h = elim h.known [
        | inl empty ↦ cc
        | inr (l, known) ↦ submit_pending-IsReady strict k r l known h.ready
      ]

      pub flush-IsReady :
          (strict : Bool) (batch_size k : ℕ) (r : RelayRun P B)
          → IsBalanced strict batch_size k r
          → Returns (flush P B r) (λ _ r'. IsReady strict k r' × (r'.pending ≡ []))
      unfolding flush
      flush-IsReady strict batch_size k r h =
          flush_items-IsReady strict batch_size k r r.pending refl h
