-- ===== src/Chain/Include.antt =====
-- What the two updates of SimulatedBlockchain's state write: `include`, and the change of a latency.
use post_quantum_iot_auth.Prelude.{
  ℕ, ◌+◌, ◌≡◌, refl, ◌||◌, false, Option-cases, inl, inr, none, some, [], ◌∷◌, ◌++◌, arith,
  if◌then◌else◌, Text, beq, beq_iff, contains, contains-append_one, length, length-append,
}
use post_quantum_iot_auth.Dict
use post_quantum_iot_auth.Dict.{lookup-insert}
use post_quantum_iot_auth.Platform.{Platform}
use post_quantum_iot_auth.Chain.{
  TxKind, Transaction, SimulatedBlockchain, network_latency, transaction, include, amortize,
  with_latency,
}

module _ (P : Platform) (h sender data_hash : Text) (kind : TxKind) (gas : ℕ) (now : P.Float)
    (c : SimulatedBlockchain P) where
  -- the entry that `include` stores
  abbrev pub included : Transaction P
  included =
      transaction P sender data_hash kind gas now (network_latency P c).0 (c.block_number + 1)

  pub lookup-include :
      (k : Text)
      → Dict.lookup k (include P h sender data_hash kind gas now c).transactions
        ≡ (if beq h k then some included else Dict.lookup k c.transactions)
  unfolding include network_latency
  lookup-include k = lookup-insert h k included c.transactions

  pub lookup-include_self :
      Dict.lookup h (include P h sender data_hash kind gas now c).transactions ≡ some included
  lookup-include_self = rw (lookup-include h, (beq_iff h h).1 refl)

  pub lookup-include_ne :
      (k : Text)
      → beq h k ≡ false
      → Dict.lookup k (include P h sender data_hash kind gas now c).transactions
        ≡ Dict.lookup k c.transactions
  lookup-include_ne k e = rw (lookup-include k, e)

  pub contains-include :
      (k : Text)
      → contains k (include P h sender data_hash kind gas now c).tx_order
        ≡ (contains k c.tx_order || beq h k)
  unfolding include network_latency
  contains-include k = contains-append_one k h c.tx_order

  pub order-include : (include P h sender data_hash kind gas now c).tx_order ≡ c.tx_order ++ h ∷ []
  unfolding include network_latency
  order-include = refl

  pub length-include :
      length (include P h sender data_hash kind gas now c).tx_order ≡ length c.tx_order + 1
  unfolding include network_latency
  length-include = omega (arith, length-append c.tx_order (h ∷ []))

  pub block-include :
      (include P h sender data_hash kind gas now c).block_number ≡ c.block_number + 1
  unfolding include network_latency
  block-include = refl

module _ (P : Platform) (h : Text) (n : ℕ) (c : SimulatedBlockchain P) where
  -- the latency that `amortize` writes
  abbrev pub amortized : P.Float
  amortized = P.div (network_latency P c).0 (P.float n)

  pub lookup-amortize :
      (k : Text)
      → Dict.lookup k (amortize P h n c).transactions ≡ (
          if beq h k
          then elim (Dict.lookup h c.transactions) [
            | none ↦ none
            | some t ↦ some (with_latency P amortized t)
          ]
          else Dict.lookup k c.transactions)
  unfolding amortize network_latency
  lookup-amortize k = elim (Option-cases (Dict.lookup h c.transactions)) [
    | inl missing ↦ ground (arith, beq_iff h k)
    | inr (t, e) ↦ ground (arith, lookup-insert h k (with_latency P amortized t) c.transactions)
  ]

  pub lookup-amortize_ne :
      (k : Text)
      → beq h k ≡ false
      → Dict.lookup k (amortize P h n c).transactions ≡ Dict.lookup k c.transactions
  lookup-amortize_ne k e = rw (lookup-amortize k, e)

  pub order-amortize : (amortize P h n c).tx_order ≡ c.tx_order
  unfolding amortize network_latency
  order-amortize = ground arith

  pub block-amortize : (amortize P h n c).block_number ≡ c.block_number
  unfolding amortize network_latency
  block-amortize = ground arith
