-- ===== src/Runner/Tally.antt =====
-- The gas of the transactions that a Hardhat backend has recorded, as its receipts say it.
use post_quantum_iot_auth.Prelude.{
  ℕ, ◌+◌, ◌≡◌, refl, sym, subst, ap, ◌∙◌, ◌⊎◌, inl, inr, false, Option, none, some, List, [], ◌∷◌,
  ◌++◌, arith, Text, beq, beq_iff, contains, contains-append, Distinct, Bool-cases, sum,
}
use mathlib.Core.List.{append_assoc, append-nil}
use post_quantum_iot_auth.Dict
use post_quantum_iot_auth.Dict.{Dict, lookup-insert, lookup-insert_self}
use post_quantum_iot_auth.Platform.{Platform}
use post_quantum_iot_auth.Chain.{Transaction}
use post_quantum_iot_auth.Hardhat.Client.{Web3}
use post_quantum_iot_auth.Hardhat.{HardhatBackend, transaction_count}
use post_quantum_iot_auth.Hardhat.Recording.{Log, added}
use post_quantum_iot_auth.Runner.RealBatch.{Mined, added_all}
use post_quantum_iot_auth.Runner.Recorded.{IsRecorded, IsRecorded-HasEntries, mined_gas, empty_log}

Distinct-cases : (xs : List Text) → (¬ Distinct xs) ⊎ Distinct xs
Distinct-cases [] = inr tt
Distinct-cases (x ∷ xs) = elim (Bool-cases (contains x xs)) [
  | inl twice ↦ inl (λ d. ground (arith, d.0))
  | inr once ↦ elim (Distinct-cases xs) [ inl more ↦ inl (λ d. more d.1) | inr d ↦ inr (once, d) ]
]

Distinct-middle : (h : Text) (xs ys : List Text) → Distinct (xs ++ h ∷ ys) → contains h xs ≡ false
unfolding contains
Distinct-middle h [] ys d = refl
Distinct-middle h (x ∷ xs) ys (once, d) =
    ground
      (arith, contains-append x xs (h ∷ ys), beq_iff x h, beq_iff h x, Distinct-middle h xs ys d)

module _ (P : Platform) where
  abbrev gas_in : Option (Transaction P) → ℕ
  gas_in none = 0
  gas_in (some t) = t.gas_used

  -- The gas of the receipts of some hashes.
  abbrev pub receipts_gas : Dict (Transaction P) → List Text → ℕ
  receipts_gas d [] = 0
  receipts_gas d (h ∷ hs) = gas_in (Dict.lookup h d) + receipts_gas d hs

  receipts_gas-append :
      (d : Dict (Transaction P)) (xs ys : List Text)
      → receipts_gas d (xs ++ ys) ≡ receipts_gas d xs + receipts_gas d ys
  receipts_gas-append d [] ys = omega arith
  receipts_gas-append d (x ∷ xs) ys = omega (arith, receipts_gas-append d xs ys)

  receipts_gas-insert :
      (h : Text) (t : Transaction P) (d : Dict (Transaction P)) (xs : List Text)
      → contains h xs ≡ false
      → receipts_gas (Dict.insert h t d) xs ≡ receipts_gas d xs
  unfolding contains
  receipts_gas-insert h t d [] e = refl
  receipts_gas-insert h t d (x ∷ xs) e =
      let ne : beq h x ≡ false = ground (arith, beq_iff h x, beq_iff x h) in
      rw (lookup-insert h x t d, ne, receipts_gas-insert h t d xs (ground arith)) refl

  module _ (X : Web3 P) where
    -- The gas of the log.
    abbrev tally : Log P → ℕ
    tally l = receipts_gas l.transactions l.tx_order

    tally-added :
        (h : Text) (t : Transaction P) (l : Log P)
        → contains h l.tx_order ≡ false
        → tally (added P X h t l) ≡ tally l + t.gas_used
    tally-added h t l new =
        let d = Dict.insert h t l.transactions in
        let last : receipts_gas d (h ∷ []) ≡ t.gas_used =
          rw (lookup-insert_self h t l.transactions) (omega arith) in
        omega (
          arith,
          receipts_gas-append d l.tx_order (h ∷ []),
          receipts_gas-insert h t l.transactions l.tx_order new,
          last,
        )

    order-added_all :
        (ts : List (Mined P X)) (l : Log P)
        → (hs : List Text) × ((added_all P X ts l).tx_order ≡ l.tx_order ++ hs)
    order-added_all [] l = ([], sym (append-nil l.tx_order))
    order-added_all ((h, t) ∷ ts) l =
        let (hs, e) = order-added_all ts (added P X h t l) in
        (h ∷ hs, e ∙ append_assoc l.tx_order (h ∷ []) hs)

    tally-added_all :
        (ts : List (Mined P X)) (l : Log P)
        → Distinct (added_all P X ts l).tx_order
        → tally (added_all P X ts l) ≡ tally l + sum (mined_gas P X ts)
    tally-added_all [] l d = omega arith
    tally-added_all ((h, t) ∷ ts) l d =
        let (hs, e) = order-added_all ts (added P X h t l) in
        let order = e ∙ append_assoc l.tx_order (h ∷ []) hs in
        let new = Distinct-middle h l.tx_order hs (subst Distinct order d) in
        omega (arith, tally-added_all ts (added P X h t l) d, tally-added h t l new)

    -- `count` transactions are recorded, and their receipts cost `gas`, unless the node has given two
    -- of them the same hash.
    pub record Costs (gas count : ℕ) (b : HardhatBackend P X) : Type 0 where
      pub size : transaction_count P X b ≡ count
      pub cost : (¬ Distinct b.tx_order) ⊎ (receipts_gas b.transactions b.tx_order ≡ gas)

    pub IsRecorded-Costs :
        (gas count : ℕ) (b : HardhatBackend P X) (w : P.World)
        → IsRecorded P X gas count b
        → Costs gas count b
    IsRecorded-Costs gas count b w h = record {
      size = (IsRecorded-HasEntries P X gas count b w h).1;
      cost = elim (Distinct-cases b.tx_order) [
        | inl twice ↦ inl twice
        | inr once ↦
            let e = h.logged w in
            let all =
              tally-added_all h.mined (empty_log P X)
                (subst Distinct (ap (λ (l : Log P). l.tx_order) e) once) in
            inr (ap tally e ∙ omega (arith, all, h.cost))
      ];
    }
