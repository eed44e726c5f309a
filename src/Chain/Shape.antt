-- ===== src/Chain/Shape.antt =====
-- The invariant of a simulated blockchain, and that every method keeps it.
use post_quantum_iot_auth.Prelude.{
  ℕ, ◌+◌, ◌*◌, ◌≤◌, ◌≡◌, refl, ◌⊎◌, Bool, true, false, Option-cases, inl, inr, Option, none, some,
  List, [], ◌∷◌, arith, if◌then◌else◌, Text, beq_iff, contains, length,
}
use post_quantum_iot_auth.Chain.Include.{
  lookup-include, contains-include, length-include, block-include, lookup-amortize, order-amortize,
  block-amortize,
}
use post_quantum_iot_auth.Dict
use post_quantum_iot_auth.Dict.{lookup-empty, lookup-insert}
use post_quantum_iot_auth.Platform.{Platform}
use post_quantum_iot_auth.Chain.{
  TxKind, direct, meta_transaction, BatchItem, Transaction, SimulatedBlockchain, new_blockchain,
  include, submit_transaction, direct_gas, meta_gas, submit_meta_transaction, amortize,
  submit_items, submit_batch_transaction,
}

abbrev pub is_some {ℓ} : {A : Type ℓ} → Option A → Bool
is_some none = false
is_some (some a) = true

-- The gas that the two kinds of transaction may have been charged.
abbrev pub IsPriced : TxKind → ℕ → Type 0
IsPriced (direct payload_size store_signature) gas =
    gas ≡ 51000 + 16 * payload_size + (if store_signature then 40000 else 0)
IsPriced (meta_transaction _) gas = (gas ≡ 821563) ⊎ (gas ≡ 71000)

module _ (P : Platform) where
  -- Each transaction has a block of its own; the receipts are those of the hashes in the order; a
  -- receipt's block is there, and its gas is that of its kind.
  pub record IsConsistent (c : SimulatedBlockchain P) : Type 0 where
    pub counted : length c.tx_order ≡ c.block_number
    pub listed : (h : Text) → contains h c.tx_order ≡ is_some (Dict.lookup h c.transactions)
    pub mined :
        (h : Text) (t : Transaction P)
        → Dict.lookup h c.transactions ≡ some t
        → (1 ≤ t.block_number) × (t.block_number ≤ c.block_number) × IsPriced t.kind t.gas_used

  pub new_blockchain-IsConsistent : (seed : ℕ) → IsConsistent (new_blockchain P seed)
  unfolding new_blockchain contains
  new_blockchain-IsConsistent seed = record {
    counted = refl;
    listed = λ h. cc (lookup-empty {V = Transaction P} h);
    mined = λ h t e. cc (lookup-empty {V = Transaction P} h);
  }

  include-IsConsistent :
      (h sender data_hash : Text) (kind : TxKind) (gas : ℕ) (now : P.Float)
      (c : SimulatedBlockchain P)
      → IsPriced kind gas
      → IsConsistent c
      → IsConsistent (include P h sender data_hash kind gas now c)
  include-IsConsistent h s d kind gas now c priced v = record {
    counted = omega (
      arith,
      length-include P h s d kind gas now c,
      block-include P h s d kind gas now c,
      v.counted,
    );
    listed = λ k. ground (
      arith,
      contains-include P h s d kind gas now c k,
      lookup-include P h s d kind gas now c k,
      v.listed k,
    );
    mined = λ k t e. ground (
      arith,
      block-include P h s d kind gas now c,
      lookup-include P h s d kind gas now c k,
      v.mined k t,
    );
  }

  amortize-IsConsistent :
      (h : Text) (n : ℕ) (c : SimulatedBlockchain P)
      → IsConsistent c
      → IsConsistent (amortize P h n c)
  amortize-IsConsistent h n c v = record {
    counted = rw (order-amortize P h n c, block-amortize P h n c) v.counted;
    listed = λ k. ground (
      arith,
      order-amortize P h n c,
      lookup-amortize P h n c k,
      beq_iff h k,
      v.listed k,
      v.listed h,
    );
    mined = λ k t e. elim (Option-cases (Dict.lookup h c.transactions)) [
      | inl missing ↦ ground (arith, block-amortize P h n c, lookup-amortize P h n c k, v.mined k t)
      | inr (u, found) ↦
          ground
            (arith, block-amortize P h n c, lookup-amortize P h n c k, v.mined k t, v.mined h u)
    ];
  }

  pub submit_transaction-IsConsistent :
      (sender data_hash : Text) (size : ℕ) (store : Bool) (s : SimulatedBlockchain P × P.World)
      → IsConsistent s.0
      → IsConsistent (submit_transaction P sender data_hash size store s).1.0
  unfolding submit_transaction direct_gas
  submit_transaction-IsConsistent sender data_hash size store (c, w) v =
      include-IsConsistent _ _ _ _ _ _ _ (ground arith) v

  pub submit_meta_transaction-IsConsistent :
      (relay data_hash : Text) (size : ℕ) (active : Bool) (s : SimulatedBlockchain P × P.World)
      → IsConsistent s.0
      → IsConsistent (submit_meta_transaction P relay data_hash size active s).1.0
  unfolding submit_meta_transaction meta_gas
  submit_meta_transaction-IsConsistent relay data_hash size active (c, w) v =
      include-IsConsistent _ _ _ _ _ _ _ (ground arith) v

  submit_items-IsConsistent :
      (relay : Text) (n : ℕ) (items : List BatchItem) (s : SimulatedBlockchain P × P.World)
      → IsConsistent s.0
      → IsConsistent (submit_items P relay n items s).1.0
  unfolding submit_items
  submit_items-IsConsistent relay n [] s v = v
  submit_items-IsConsistent relay n (item ∷ items) s v = submit_items-IsConsistent relay n items _ (
      amortize-IsConsistent _ n _
        (submit_meta_transaction-IsConsistent relay item.data_hash _ _ s v))

  pub submit_batch_transaction-IsConsistent :
      (relay : Text) (items : List BatchItem) (s : SimulatedBlockchain P × P.World)
      → IsConsistent s.0
      → IsConsistent (submit_batch_transaction P relay items s).1.0
  unfolding submit_batch_transaction
  submit_batch_transaction-IsConsistent relay items (c, w) v =
      submit_items-IsConsistent relay _ items _ v
