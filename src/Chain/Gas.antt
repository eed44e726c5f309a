-- ===== src/Chain/Gas.antt =====
-- The gas that a simulated blockchain records for what is submitted to it.
use post_quantum_iot_auth.Prelude.{
  ℕ, ◌+◌, ◌*◌, ◌≡◌, refl, ◌∙◌, ap, ap₂, Bool, true, false, Option, none, some, List, [], ◌∷◌, arith,
  if◌then◌else◌, Text, beq_iff, Distinct, sum, map, length,
}
use post_quantum_iot_auth.Platform.{Platform}
use post_quantum_iot_auth.Chain.{
  BatchItem, get_or, TxKind, direct, meta_transaction, Transaction, SimulatedBlockchain,
  submit_transaction, submit_meta_transaction, meta_gas, direct_gas, amortize, submit_items,
  submit_batch_transaction, get_receipt,
}
use post_quantum_iot_auth.Chain.Include.{included, lookup-include_self, lookup-amortize}
use post_quantum_iot_auth.Chain.History.{receipt-submit_items, length-submit_items}

-- The gas of a batch's item: a missing `verified` counts as verified.
abbrev pub item_gas : Option Bool → ℕ
item_gas none = 821563
item_gas (some true) = 821563
item_gas (some false) = 71000

item_gas_lem : (verified : Option Bool) → meta_gas (get_or verified true) ≡ item_gas verified
unfolding meta_gas
item_gas_lem none = refl
item_gas_lem (some true) = refl
item_gas_lem (some false) = refl

module _ (P : Platform) where
  -- `receipt["gas_used"]`, and 0 where there is no receipt.
  abbrev pub gas_in : Option (Transaction P) → ℕ
  gas_in none = 0
  gas_in (some t) = t.gas_used

  -- The gas on the receipts of some hashes.
  abbrev pub total_gas : SimulatedBlockchain P → List Text → ℕ
  total_gas c [] = 0
  total_gas c (h ∷ hs) = gas_in (get_receipt P h c) + total_gas c hs

  -- What a receipt says of a submission that was made on the blockchain `c`.
  pub record IsReceipt (c : SimulatedBlockchain P) (sender data_hash : Text) (kind : TxKind)
      (gas : ℕ) (t : Transaction P) : Type 0 where
    pub sender_is : t.sender ≡ sender
    pub hash_is : t.data_hash ≡ data_hash
    pub kind_is : t.kind ≡ kind
    pub gas_is : t.gas_used ≡ gas
    pub block_is : t.block_number ≡ c.block_number + 1

  -- The hash that a direct submission returns has a receipt for it, in the next block; its gas is
  -- 51000 and 16 for each byte of payload, and 40000 more if the signature is stored.
  pub get_receipt-submit_transaction :
      (sender data_hash : Text) (size : ℕ) (store : Bool) (c : SimulatedBlockchain P) (w : P.World)
      → let (h, s) = submit_transaction P sender data_hash size store (c, w) in
        (t : Transaction P) × (get_receipt P h s.0 ≡ some t)
        × IsReceipt c sender data_hash
            (direct size store)
            (51000 + 16 * size + (if store then 40000 else 0))
            t
  unfolding submit_transaction get_receipt direct_gas
  get_receipt-submit_transaction sender data_hash size store c w = (
    included P [] sender data_hash _ (direct_gas size store) _ c,
    lookup-include_self P _ _ _ _ _ _ c,
    record {
      sender_is = refl;
      hash_is = refl;
      kind_is = refl;
      gas_is = ground arith;
      block_is = refl;
    },
  )

  -- The hash that a relayed submission returns has a receipt for it, in the next block; its gas is
  -- 821563 for an active DID, and 71000 for any other.
  pub get_receipt-submit_meta_transaction :
      (relay data_hash : Text) (size : ℕ) (active : Bool) (c : SimulatedBlockchain P) (w : P.World)
      → let (h, s) = submit_meta_transaction P relay data_hash size active (c, w) in
        (t : Transaction P) × (get_receipt P h s.0 ≡ some t)
        × IsReceipt c relay data_hash (meta_transaction size) (if active then 821563 else 71000) t
  unfolding submit_meta_transaction get_receipt meta_gas
  get_receipt-submit_meta_transaction relay data_hash size active c w = (
    included P [] relay data_hash _ (meta_gas active) _ c,
    lookup-include_self P _ _ _ _ _ _ c,
    record { sender_is = refl; hash_is = refl; kind_is = refl; gas_is = refl; block_is = refl },
  )

  gas-first :
      (relay : Text) (item : BatchItem) (n : ℕ) (c : SimulatedBlockchain P) (w : P.World)
      → let (h, s) =
          submit_meta_transaction P relay item.data_hash
            (get_or item.signature_size 752)
            (get_or item.verified true)
            (c, w) in
        gas_in (get_receipt P h (amortize P h n s.0)) ≡ item_gas item.verified
  unfolding submit_meta_transaction get_receipt
  gas-first relay item n c w =
      rw (lookup-amortize P _ n _ _, (beq_iff _ _).1 refl, lookup-include_self P _ _ _ _ _ _ c)
        (item_gas_lem item.verified)

  gas-submit_items :
      (relay : Text) (n : ℕ) (items : List BatchItem) (c : SimulatedBlockchain P) (w : P.World)
      → Distinct (submit_items P relay n items (c, w)).0
      → total_gas (submit_items P relay n items (c, w)).1.0 (submit_items P relay n items (c, w)).0
        ≡ sum (map (λ (i : BatchItem). item_gas i.verified) items)
  unfolding submit_items get_receipt
  gas-submit_items relay n [] c w d = refl
  gas-submit_items relay n (item ∷ items) c w d =
      ap₂ (λ a b. a + b)
        (ap gas_in (receipt-submit_items P relay _ n items _ d.0) ∙ gas-first relay item n c w)
        (gas-submit_items relay n items _ _ d.1)

  -- If the hashes of a batch differ from one another, the receipts of the batch add up to the full
  -- gas of each item, as if the items had been submitted one by one: there is one hash for each item.
  pub gas-submit_batch_transaction :
      (relay : Text) (items : List BatchItem) (c : SimulatedBlockchain P) (w : P.World)
      → Distinct (submit_batch_transaction P relay items (c, w)).0
      → let (hashes, s) = submit_batch_transaction P relay items (c, w) in
        (length hashes ≡ length items)
        × (total_gas s.0 hashes ≡ sum (map (λ (i : BatchItem). item_gas i.verified) items))
  unfolding submit_batch_transaction
  gas-submit_batch_transaction relay items c w d =
      (length-submit_items P relay _ items _, gas-submit_items relay _ items c _ d)
