-- ===== src/Hardhat/Decomposition.antt =====
-- `get_gas_decomposition` of relay_system/hardhat_backend.py.
use post_quantum_iot_auth.Prelude.{
  ℕ, ◌+◌, ◌≡◌, refl, sym, subst, suc, true, false, Option, none, some, List, [], ◌∷◌, ◌++◌, arith,
  if◌then◌else◌, Text, length, sum, All, length-append, sum-append,
}
use post_quantum_iot_auth.Platform.{Platform}
use post_quantum_iot_auth.Dict
use post_quantum_iot_auth.Dict.{Dict}
use post_quantum_iot_auth.Chain.{Transaction, TxKind, direct, meta_transaction}
use post_quantum_iot_auth.Hardhat.Client.{Web3}
use post_quantum_iot_auth.Hardhat.{HardhatBackend, transaction_count}

-- `relay_txs`, `ecdsa_txs` and `ecdsa_store_txs`
pub record GasLists : Type 0 where
  pub relay : List ℕ
  pub ecdsa : List ℕ
  pub ecdsa_store : List ℕ

module _ (P : Platform) where
  open P use {Float}

  abbrev pub add_kind : TxKind → ℕ → GasLists → GasLists
  add_kind (meta_transaction size) gas l = record l { relay = l.relay ++ gas ∷ [] }
  add_kind (direct size true) gas l = record l { ecdsa_store = l.ecdsa_store ++ gas ∷ [] }
  add_kind (direct size false) gas l = record l { ecdsa = l.ecdsa ++ gas ∷ [] }

  -- A transaction's gas goes to one list by its kind; a hash without an entry goes nowhere.
  abbrev pub add_gas : Option (Transaction P) → GasLists → GasLists
  add_gas none l = l
  add_gas (some t) l = add_kind t.kind t.gas_used l

  unfoldable pub sort_gas : Dict (Transaction P) → List Text → GasLists → GasLists
  sort_gas transactions [] l = l
  sort_gas transactions (tx_id ∷ rest) l =
      sort_gas transactions rest (add_gas (Dict.lookup tx_id transactions) l)

  -- An average with the number of values it is taken over; `none` where the list is empty.
  pub record Average : Type 0 where
    pub mean : Float
    pub count : ℕ

  abbrev pub average : List ℕ → Option Average
  average [] = none
  average (x ∷ xs) = some (record {
    mean = P.div (P.float (sum (x ∷ xs))) (P.float (length (x ∷ xs)));
    count = length (x ∷ xs);
  })

  pub record Decomposition : Type 0 where
    pub relay : Option Average
    -- `relay_contract_overhead`; the base is 21000
    pub relay_overhead : Option Float
    pub ecdsa_verify : Option Average
    pub ecdsa_store : Option Average
    pub ratio : Option Float

  abbrev overhead : Option Average → Option Float
  overhead none = none
  overhead (some a) = some (P.sub a.mean (P.float 21000))

  abbrev ratio_of : Option Average → Option Average → Option Float
  ratio_of (some r) (some e) =
      some (if P.lt (P.float 0) e.mean then P.div r.mean e.mean else P.float 0)
  ratio_of _ e = none

  unfoldable pub get_gas_decomposition : {X : Web3 P} → HardhatBackend P X → Decomposition
  get_gas_decomposition b =
      let l =
        sort_gas b.transactions b.tx_order (record { relay = []; ecdsa = []; ecdsa_store = [] }) in
      let relay = average l.relay in
      let store = average l.ecdsa_store in
      record {
        relay = relay;
        relay_overhead = overhead relay;
        ecdsa_verify = average l.ecdsa;
        ecdsa_store = store;
        ratio = ratio_of relay store;
      }

  abbrev pub gas_count : GasLists → ℕ
  gas_count l = length l.relay + length l.ecdsa + length l.ecdsa_store

  abbrev pub gas_sum : GasLists → ℕ
  gas_sum l = sum l.relay + sum l.ecdsa + sum l.ecdsa_store

  -- The gas of the entries that a list of hashes has.
  abbrev pub gas_of : Option (Transaction P) → ℕ
  gas_of none = 0
  gas_of (some t) = t.gas_used

  abbrev pub recorded_gas : Dict (Transaction P) → List Text → ℕ
  recorded_gas d [] = 0
  recorded_gas d (h ∷ hs) = gas_of (Dict.lookup h d) + recorded_gas d hs

  abbrev pub HasEntry : Dict (Transaction P) → Text → Type 0
  HasEntry d h = (t : Transaction P) × (Dict.lookup h d ≡ some t)

  snoc_count : (xs : List ℕ) (a : ℕ) → length (xs ++ a ∷ []) ≡ length xs + 1
  snoc_count xs a = omega (arith, length-append xs (a ∷ []))

  snoc_sum : (xs : List ℕ) (a : ℕ) → sum (xs ++ a ∷ []) ≡ sum xs + a
  snoc_sum xs a = omega (arith, sum-append xs (a ∷ []))

  add_kind-adds :
      (k : TxKind) (gas : ℕ) (l : GasLists)
      → (gas_count (add_kind k gas l) ≡ gas_count l + 1)
        × (gas_sum (add_kind k gas l) ≡ gas_sum l + gas)
  add_kind-adds (meta_transaction size) gas l =
      omega (arith, snoc_count l.relay gas, snoc_sum l.relay gas)
  add_kind-adds (direct size true) gas l =
      omega (arith, snoc_count l.ecdsa_store gas, snoc_sum l.ecdsa_store gas)
  add_kind-adds (direct size false) gas l =
      omega (arith, snoc_count l.ecdsa gas, snoc_sum l.ecdsa gas)

  -- The three lists take in each transaction of the order once, with its gas.
  pub sort_gas_lem :
      (d : Dict (Transaction P)) (order : List Text) (l : GasLists)
      → All (HasEntry d) order
      → (gas_count (sort_gas d order l) ≡ gas_count l + length order)
        × (gas_sum (sort_gas d order l) ≡ gas_sum l + recorded_gas d order)
  unfolding sort_gas
  sort_gas_lem d [] l a = (omega arith, omega arith)
  sort_gas_lem d (h ∷ hs) l ((t, found), a) =
      let l' = add_gas (some t) l in
      subst
        (λ o.
          (gas_count (sort_gas d hs (add_gas o l)) ≡ gas_count l + suc (length hs))
          × (gas_sum (sort_gas d hs (add_gas o l)) ≡ gas_sum l + (gas_of o + recorded_gas d hs)))
        (sym found) (omega (arith, add_kind-adds t.kind t.gas_used l, sort_gas_lem d hs l' a))

  abbrev pub count_of : Option Average → ℕ
  count_of none = 0
  count_of (some a) = a.count

  count_of-average : (xs : List ℕ) → count_of (average xs) ≡ length xs
  count_of-average [] = refl
  count_of-average (x ∷ xs) = refl

  -- Where each hash of the order has an entry, the decomposition counts every transaction in exactly
  -- one of its averages.
  pub count-get_gas_decomposition :
      (X : Web3 P) (b : HardhatBackend P X)
      → All (HasEntry b.transactions) b.tx_order
      → let d = get_gas_decomposition b in
        count_of d.relay + count_of d.ecdsa_verify + count_of d.ecdsa_store
        ≡ transaction_count P X b
  unfolding get_gas_decomposition transaction_count
  count-get_gas_decomposition X b a =
      let start : GasLists = record { relay = []; ecdsa = []; ecdsa_store = [] } in
      let l = sort_gas b.transactions b.tx_order start in
      omega (
        arith,
        (sort_gas_lem b.transactions b.tx_order start a).0,
        count_of-average l.relay,
        count_of-average l.ecdsa,
        count_of-average l.ecdsa_store,
      )
