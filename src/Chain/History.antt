-- ===== src/Chain/History.antt =====
-- Any sequence of submissions to a simulated blockchain: the hashes that it returns, the order that
-- it records and the receipts that it leaves alone.
use post_quantum_iot_auth.Prelude.{
  ℕ, ◌+◌, ◌≡◌, refl, ap, sym, suc, Bool, false, List, [], ◌∷◌, ◌++◌, arith, Text, contains,
  contains-append, or-eq_false, ◌∙◌, length, length-append, sum, map,
}
use mathlib.Core.List.{append_assoc, append-nil}
use post_quantum_iot_auth.Dict
use post_quantum_iot_auth.Platform.{Platform}
use post_quantum_iot_auth.Chain.{
  BatchItem, SimulatedBlockchain, submit_transaction, submit_meta_transaction, submit_items,
  submit_batch_transaction, get_receipt, transaction_count, new_blockchain,
}
use post_quantum_iot_auth.Chain.Include.{
  lookup-include_ne, order-include, lookup-amortize_ne, order-amortize,
}
use post_quantum_iot_auth.Chain.Shape.{
  IsConsistent, submit_transaction-IsConsistent, submit_meta_transaction-IsConsistent,
  submit_batch_transaction-IsConsistent, new_blockchain-IsConsistent,
}

pub data Call : Type 0 where
  submit_direct : Text → Text → ℕ → Bool → Call
  submit_meta : Text → Text → ℕ → Bool → Call
  submit_batch : Text → List BatchItem → Call

-- How many transactions a call submits.
abbrev pub weight : Call → ℕ
weight (submit_direct _ _ _ _) = 1
weight (submit_meta _ _ _ _) = 1
weight (submit_batch _ items) = length items

module _ (P : Platform) where
  abbrev State : Type 0
  State = SimulatedBlockchain P × P.World

  abbrev one : Text × State → List Text × State
  one (h, s) = (h ∷ [], s)

  -- A call, with the hashes that it returns as a list.
  unfoldable pub perform : Call → State → List Text × State
  perform (submit_direct sender data_hash size store) s =
      one (submit_transaction P sender data_hash size store s)
  perform (submit_meta relay data_hash size active) s =
      one (submit_meta_transaction P relay data_hash size active s)
  perform (submit_batch relay items) s = submit_batch_transaction P relay items s

  unfoldable pub run : List Call → State → List Text × State
  run [] s = ([], s)
  run (call ∷ calls) s =
      let (hashes, s₁) = perform call s in let (rest, s₂) = run calls s₁ in (hashes ++ rest, s₂)

  perform-IsConsistent :
      (call : Call) (s : State) → IsConsistent P s.0 → IsConsistent P (perform call s).1.0
  unfolding perform
  perform-IsConsistent (submit_direct sender d size store) s v =
      submit_transaction-IsConsistent P sender d size store s v
  perform-IsConsistent (submit_meta relay d size active) s v =
      submit_meta_transaction-IsConsistent P relay d size active s v
  perform-IsConsistent (submit_batch relay items) s v =
      submit_batch_transaction-IsConsistent P relay items s v

  run_from-IsConsistent :
      (calls : List Call) (s : State) → IsConsistent P s.0 → IsConsistent P (run calls s).1.0
  unfolding run
  run_from-IsConsistent [] s v = v
  run_from-IsConsistent (call ∷ calls) s v =
      run_from-IsConsistent calls (perform call s).1 (perform-IsConsistent call s v)

  -- Whatever is submitted to a new blockchain, it stays consistent: as many blocks as transactions,
  -- receipts for exactly the hashes of the order, and each receipt with a block that is there and the
  -- gas of its kind.
  pub run-IsConsistent :
      (calls : List Call) (seed : ℕ) (w : P.World)
      → IsConsistent P (run calls (new_blockchain P seed, w)).1.0
  run-IsConsistent calls seed w =
      run_from-IsConsistent calls (new_blockchain P seed, w) (new_blockchain-IsConsistent P seed)

  order-submit_items :
      (relay : Text) (n : ℕ) (items : List BatchItem) (s : State)
      → (submit_items P relay n items s).1.0.tx_order
        ≡ s.0.tx_order ++ (submit_items P relay n items s).0
  unfolding submit_items submit_meta_transaction
  order-submit_items relay n [] s = sym (append-nil s.0.tx_order)
  order-submit_items relay n (item ∷ items) (c, w) =
      rw (order-submit_items relay n items _, order-amortize, order-include)
        (append_assoc c.tx_order _ _)

  pub length-submit_items :
      (relay : Text) (n : ℕ) (items : List BatchItem) (s : State)
      → length (submit_items P relay n items s).0 ≡ length items
  unfolding submit_items
  length-submit_items relay n [] s = refl
  length-submit_items relay n (item ∷ items) s = ap suc (length-submit_items relay n items _)

  order-perform :
      (call : Call) (s : State) → (perform call s).1.0.tx_order ≡ s.0.tx_order ++ (perform call s).0
  unfolding perform submit_transaction submit_meta_transaction submit_batch_transaction
  order-perform (submit_direct sender d size store) s = order-include P _ _ _ _ _ _ s.0
  order-perform (submit_meta relay d size active) s = order-include P _ _ _ _ _ _ s.0
  order-perform (submit_batch relay items) (c, w) = order-submit_items relay _ items _

  length-perform : (call : Call) (s : State) → length (perform call s).0 ≡ weight call
  unfolding perform submit_batch_transaction
  length-perform (submit_direct sender d size store) s = refl
  length-perform (submit_meta relay d size active) s = refl
  length-perform (submit_batch relay items) (c, w) = length-submit_items relay _ items _

  -- The order of a blockchain after any calls is the order before them, followed by the hashes that
  -- the calls returned, and there are as many of these as transactions were submitted.
  pub order-run :
      (calls : List Call) (s : State)
      → ((run calls s).1.0.tx_order ≡ s.0.tx_order ++ (run calls s).0)
        × (transaction_count P (run calls s).1.0 ≡ transaction_count P s.0 + sum (map weight calls))
  unfolding run transaction_count
  order-run [] s = (sym (append-nil s.0.tx_order), omega arith)
  order-run (call ∷ calls) s =
      let s₁ = (perform call s).1 in
      let hashes = (perform call s).0 in
      let rest = (run calls s₁).0 in
      (
        rw ((order-run calls s₁).0, order-perform call s) (append_assoc s.0.tx_order hashes rest),
        omega (
          arith,
          (order-run calls s₁).1,
          ap (λ (l : List Text). length l) (order-perform call s),
          length-append s.0.tx_order hashes,
          length-perform call s,
        ),
      )

  pub receipt-submit_items :
      (relay k : Text) (n : ℕ) (items : List BatchItem) (s : State)
      → contains k (submit_items P relay n items s).0 ≡ false
      → Dict.lookup k (submit_items P relay n items s).1.0.transactions
        ≡ Dict.lookup k s.0.transactions
  unfolding submit_items submit_meta_transaction contains
  receipt-submit_items relay k n [] s a = refl
  receipt-submit_items relay k n (item ∷ items) (c, w) a =
      let (ne, rest) = or-eq_false a in
      receipt-submit_items relay k n items _ rest
      ∙ lookup-amortize_ne P _ n _ k ne
      ∙ lookup-include_ne P _ _ _ _ _ _ c k ne

  receipt-perform :
      (k : Text) (call : Call) (s : State)
      → contains k (perform call s).0 ≡ false
      → get_receipt P k (perform call s).1.0 ≡ get_receipt P k s.0
  unfolding perform submit_transaction submit_meta_transaction submit_batch_transaction get_receipt
      contains
  receipt-perform k (submit_direct sender d size store) (c, w) a =
      lookup-include_ne P _ _ _ _ _ _ c k (or-eq_false a).0
  receipt-perform k (submit_meta relay d size active) (c, w) a =
      lookup-include_ne P _ _ _ _ _ _ c k (or-eq_false a).0
  receipt-perform k (submit_batch relay items) (c, w) a = receipt-submit_items relay k _ items _ a

  -- Calls leave the receipt of every hash that they do not return as it was.
  pub get_receipt-run :
      (k : Text) (calls : List Call) (s : State)
      → contains k (run calls s).0 ≡ false
      → get_receipt P k (run calls s).1.0 ≡ get_receipt P k s.0
  unfolding run
  get_receipt-run k [] s a = refl
  get_receipt-run k (call ∷ calls) s a =
      let (first, rest) = or-eq_false (sym (contains-append k _ _) ∙ a) in
      get_receipt-run k calls _ rest ∙ receipt-perform k call s first

  pub order-submit_meta_transaction :
      (relay data_hash : Text) (size : ℕ) (active : Bool) (s : State)
      → let (h, s') = submit_meta_transaction P relay data_hash size active s in
        s'.0.tx_order ≡ s.0.tx_order ++ h ∷ []
  unfolding submit_meta_transaction
  order-submit_meta_transaction relay data_hash size active (c, w) = order-include P _ _ _ _ _ _ c
