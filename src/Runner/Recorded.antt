-- ===== src/Runner/Recorded.antt =====
-- What a run of relay_system/runner.py has recorded on a node that mines: the books of both paths, as
-- they stand in the log of the backend.
use post_quantum_iot_auth.Prelude.{
  ℕ, ◌+◌, ◌≡◌, refl, sym, ap, ◌∙◌, some, true, List, [], ◌∷◌, ◌++◌, arith, Bytes, Text, length,
  length-append, sum, sum-append, All, All-map, All-append, take-all, beq, Bool-cases, inl, inr,
}
use mathlib.Core.List.{map-append}
use post_quantum_iot_auth.Prelude.{map, subst, ◌/◌}
use post_quantum_iot_auth.Dict
use post_quantum_iot_auth.Dict.{Dict, lookup-insert, lookup-insert_self}
use post_quantum_iot_auth.Python.{ok}
use post_quantum_iot_auth.Python.Text.{hex, length-hex, fromhex-hex, IsByte}
use post_quantum_iot_auth.Python.Loops.{Returns-weaken, Returns_of}
use post_quantum_iot_auth.Platform.{Platform, IsDocumented}
use post_quantum_iot_auth.Chain.{Transaction}
use post_quantum_iot_auth.Hardhat.Client.{Web3}
use post_quantum_iot_auth.Hardhat.{
  HardhatBackend, State, new_backend, Contracts, signed_bytes, submit_transaction,
  transaction_count,
}
use post_quantum_iot_auth.Hardhat.Recording.{Log, log, added}
use post_quantum_iot_auth.Hardhat.Mining.{IsMining, IsReady, direct_return}
use post_quantum_iot_auth.Hardhat.Decomposition.{HasEntry}
use post_quantum_iot_auth.Runner.Backend.{submit_real_batch, real_batches, real_chains}
use post_quantum_iot_auth.Runner.RealBatch.{
  Mined, added_all, IsBooked, submit_real_batch_lem, get_receipt-added,
}
use post_quantum_iot_auth.Runner.Setup.{IsFresh}
use post_quantum_iot_auth.Runner.Books.{Books}
use post_quantum_iot_auth.Runner.Receipted.{Records}

module _ (P : Platform) (X : Web3 P) where
  abbrev pub mined_gas : List (Mined P X) → List ℕ
  mined_gas ts = map (λ (m : Mined P X). m.1.gas_used) ts

  abbrev pub empty_log : Log P
  empty_log = record { transactions = Dict.empty; tx_order = []; block_number = 0 }

  added_all-append :
      (ts us : List (Mined P X)) (l : Log P)
      → added_all P X (ts ++ us) l ≡ added_all P X us (added_all P X ts l)
  added_all-append [] us l = refl
  added_all-append ((h, t) ∷ ts) us l = added_all-append ts us (added P X h t l)

  -- The contracts are deployed, and the log consists of `count` transactions, which have cost `gas`.
  pub record IsRecorded (gas count : ℕ) (b : HardhatBackend P X) : Type 0 where
    pub ready : (c : Contracts P X) × (b.contracts ≡ some c)
    pub mined : List (Mined P X)
    pub logged : (w : P.World) → log P X (b, w) ≡ added_all P X mined empty_log
    pub size : length mined ≡ count
    pub cost : sum (mined_gas mined) ≡ gas

  pub IsFresh-IsRecorded :
      (b : HardhatBackend P X) (w : P.World)
      → IsReady P X (b, w)
      → IsFresh P X (b, w)
      → IsRecorded 0 0 b
  unfolding new_backend
  IsFresh-IsRecorded b w ready fresh = record {
    ready = ready;
    mined = [];
    logged = λ _. fresh;
    size = refl;
    cost = refl;
  }

  -- The same with some more transactions.
  pub IsRecorded-more :
      (gas count more n : ℕ) (b b' : HardhatBackend P X) (w w' : P.World) (ts : List (Mined P X))
      → IsRecorded gas count b
      → IsReady P X (b', w')
      → log P X (b', w') ≡ added_all P X ts (log P X (b, w))
      → length ts ≡ n
      → sum (mined_gas ts) ≡ more
      → IsRecorded (gas + more) (count + n) b'
  IsRecorded-more gas count more n b b' w w' ts h ready logged size cost = record {
    ready = ready;
    mined = h.mined ++ ts;
    logged = λ _.
        logged ∙ ap (added_all P X ts) (h.logged w) ∙ sym (added_all-append h.mined ts empty_log);
    size = omega (arith, length-append h.mined ts, h.size, size);
    cost =
        ap sum (map-append (λ (m : Mined P X). m.1.gas_used) h.mined ts)
        ∙ omega (arith, sum-append (mined_gas h.mined) (mined_gas ts), h.cost, cost);
  }

  module _ (mining : IsMining P X) where
    pub real_batches-Books : Books P (real_batches P X) IsRecorded
    real_batches-Books latency items gas count b w v h =
        let out = submit_real_batch P X latency items (b, w) in
        Returns-weaken out.0 out.1
          (λ r t.
            (costs : List ℕ) × (r.0 ≡ sum costs)
            × IsBooked P X latency (length items) costs r.1 (b, w) t)
          (λ r t. IsRecorded (gas + r.0) (count + length items) t.0)
          (λ r t (costs, total, k).
            IsRecorded-more gas count r.0 (length items) b t.0 w t.1 k.mined h k.ready k.logged
              k.size (sym (total ∙ ap sum k.gas)))
          (submit_real_batch_lem P X mining latency items (b, w) h.ready)

    module _ (doc : IsDocumented P) (bytes : (b : Bytes) → All IsByte (P.sha256 b)) where
      signed_bytes-digest : (b : Bytes) → signed_bytes P X (hex (P.sha256 b)) ≡ ok (P.sha256 b)
      signed_bytes-digest b =
          let size : length (hex (P.sha256 b)) ≡ 64 =
            omega (arith, length-hex (P.sha256 b), doc.sha256_size b) in
          rw (size, take-all 64 (hex (P.sha256 b)) size) (fromhex-hex (P.sha256 b) (bytes b))

      pub real_chains-Records : Records P (real_chains P X) IsRecorded
      real_chains-Records did payload gas count b w h =
          let data_hash = hex (P.sha256 payload) in
          let n = length data_hash / 2 in
          let s : State P X = (b, w) in
          let m = submit_transaction P X did data_hash n true in
          let (tx, t, returned, entry, ready) =
            direct_return P X mining did data_hash n true (P.sha256 payload) s
              (signed_bytes-digest payload) h.ready in
          Returns_of (m s).0 (m s).1 _ returned (
            t,
            get_receipt-added P X tx t (log P X s) (m s).1 entry,
            IsRecorded-more gas count t.gas_used 1 b (m s).1.0 w (m s).1.1 ((tx, t) ∷ []) h ready
                entry refl (omega arith),
          )

  -- Each hash in the order has a transaction.
  abbrev pub HasEntries : Log P → Type 0
  HasEntries l = All (HasEntry P l.transactions) l.tx_order

  HasEntry-insert :
      (d : Dict (Transaction P)) (h k : Text) (t : Transaction P)
      → HasEntry P d k
      → HasEntry P (Dict.insert h t d) k
  HasEntry-insert d h k t (u, e) = elim (Bool-cases (beq h k)) [
    | inl same ↦ (t, rw (lookup-insert h k t d, same) refl)
    | inr other ↦ (u, rw (lookup-insert h k t d, other) e)
  ]

  HasEntries-added_all :
      (ts : List (Mined P X)) (l : Log P)
      → HasEntries l
      → HasEntries (added_all P X ts l)
        × (length (added_all P X ts l).tx_order ≡ length l.tx_order + length ts)
  HasEntries-added_all [] l a = (a, omega arith)
  HasEntries-added_all ((h, t) ∷ ts) l a =
      let d = Dict.insert h t l.transactions in
      let kept =
        All-map (HasEntry P l.transactions) (HasEntry P d) l.tx_order
          (λ k e. HasEntry-insert l.transactions h k t e) a in
      let first : HasEntries (added P X h t l) =
        All-append (HasEntry P d) l.tx_order (h ∷ []) kept
          ((t, lookup-insert_self h t l.transactions), tt) in
      let (all, size) = HasEntries-added_all ts (added P X h t l) first in
      (all, omega (arith, size, length-append l.tx_order (h ∷ [])))

  pub IsRecorded-HasEntries :
      (gas count : ℕ) (b : HardhatBackend P X)
      → P.World
      → IsRecorded gas count b
      → All (HasEntry P b.transactions) b.tx_order × (transaction_count P X b ≡ count)
  unfolding transaction_count
  IsRecorded-HasEntries gas count b w h =
      let (all, size) = HasEntries-added_all h.mined empty_log tt in
      let e = h.logged w in
      (
        subst HasEntries (sym e) all,
        ap (λ (l : Log P). length l.tx_order) e ∙ omega (arith, size, h.size),
      )
