-- ===== src/Tests/ChainTests.antt =====
-- The theorems on the blockchains, at concrete inputs.
use post_quantum_iot_auth.Prelude.{
  ◌+◌, ◌≡◌, refl, true, false, none, some, List, [], ◌∷◌, ◌++◌, map, sum, codes, length, contains,
  Distinct,
}
use post_quantum_iot_auth.Python.Text.{hex, encode}
use post_quantum_iot_auth.Chain.{
  BatchItem, SimulatedBlockchain, new_blockchain, submit_transaction, submit_meta_transaction,
  submit_batch_transaction, submit_items, fresh_hash, get_receipt, transaction_count, Transaction,
  direct,
}
use post_quantum_iot_auth.Chain.Shape.{IsConsistent}
use post_quantum_iot_auth.Chain.History
use post_quantum_iot_auth.Chain.History.{
  Call, submit_direct, submit_meta, submit_batch, weight, run-IsConsistent, order-run,
  get_receipt-run,
}
use post_quantum_iot_auth.Chain.Gas.{
  IsReceipt, item_gas, total_gas, get_receipt-submit_transaction, gas-submit_batch_transaction,
}
use post_quantum_iot_auth.Tests.Toy.{toy}

abbrev chain : SimulatedBlockchain toy
chain = new_blockchain toy 42

abbrev batch : List BatchItem
batch =
    record { data_hash = codes "aa"; signature_size = none; verified = none }
    ∷ record { data_hash = codes "bb"; signature_size = some 700; verified = some false }
    ∷ []

abbrev calls : List Call
calls =
    submit_direct (codes "d1") (codes "cc") 32 true
    ∷ submit_batch (codes "relay") batch
    ∷ submit_meta (codes "relay") (codes "dd") 752 false
    ∷ []

run-IsConsistent_example : IsConsistent toy (History.run toy calls (chain, 3)).1.0
run-IsConsistent_example = run-IsConsistent toy calls 42 3

order-run_example :
    ((History.run toy calls (chain, 3)).1.0.tx_order
      ≡ chain.tx_order ++ (History.run toy calls (chain, 3)).0)
    × (transaction_count toy (History.run toy calls (chain, 3)).1.0
        ≡ transaction_count toy chain + sum (map weight calls))
order-run_example = order-run toy calls (chain, 3)

not_returned :
    contains
      (codes "ff")
      (History.run toy (submit_meta (codes "relay") (codes "dd") 752 true ∷ []) (chain, 3)).0
    ≡ false
unfolding contains History.run History.perform submit_meta_transaction fresh_hash hex encode
not_returned = refl

get_receipt-run_example :
    get_receipt toy
      (codes "ff")
      (History.run toy (submit_meta (codes "relay") (codes "dd") 752 true ∷ []) (chain, 3)).1.0
    ≡ get_receipt toy (codes "ff") chain
get_receipt-run_example =
    get_receipt-run toy (codes "ff") (submit_meta (codes "relay") (codes "dd") 752 true ∷ [])
      (chain, 3) not_returned

distinct : Distinct (submit_batch_transaction toy (codes "relay") batch (chain, 3)).0
unfolding contains submit_batch_transaction submit_items submit_meta_transaction fresh_hash hex
    encode
distinct = (refl, (refl, tt))

gas-submit_batch_transaction_example :
    (length (submit_batch_transaction toy (codes "relay") batch (chain, 3)).0 ≡ 2)
    × (total_gas toy
          (submit_batch_transaction toy (codes "relay") batch (chain, 3)).1.0
          (submit_batch_transaction toy (codes "relay") batch (chain, 3)).0
        ≡ sum (map (λ (i : BatchItem). item_gas i.verified) batch))
gas-submit_batch_transaction_example =
    gas-submit_batch_transaction toy (codes "relay") batch chain 3 distinct

get_receipt-submit_transaction_example :
    (t : Transaction toy) × (get_receipt toy
        (submit_transaction toy (codes "d1") (codes "cc") 32 true (chain, 3)).0
        (submit_transaction toy (codes "d1") (codes "cc") 32 true (chain, 3)).1.0
      ≡ some t)
    × IsReceipt toy chain (codes "d1") (codes "cc") (direct 32 true) 91512 t
get_receipt-submit_transaction_example =
    get_receipt-submit_transaction toy (codes "d1") (codes "cc") 32 true chain 3
