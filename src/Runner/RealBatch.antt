-- ===== src/Runner/RealBatch.antt =====
-- A batch of relay_system/runner.py on a node that mines.
use post_quantum_iot_auth.Prelude.{
  ℕ, suc, ◌≡◌, refl, ap, ◌∙◌, some, List, [], ◌∷◌, Text, length, map, sum, true, codes,
}
use post_quantum_iot_auth.Dict
use post_quantum_iot_auth.Dict.{lookup-insert_self}
use post_quantum_iot_auth.Python.{ok, Exec, pure, ◌>>=◌}
use post_quantum_iot_auth.Python.Loops.{Returns, Returns-ok, Returns-run, Returns_then}
use post_quantum_iot_auth.Platform.{Platform}
use post_quantum_iot_auth.Chain.{Transaction}
use post_quantum_iot_auth.Hardhat.Client.{Web3}
use post_quantum_iot_auth.Hardhat.{State, get_receipt}
use post_quantum_iot_auth.Hardhat.Recording.{Log, log, added}
use post_quantum_iot_auth.Hardhat.Mining.{IsMining, IsReady, meta_return}
use post_quantum_iot_auth.Runner.{Pending}
use post_quantum_iot_auth.Runner.Backend.{
  receipt_of, submit_item, submit_real_items, submit_real_batch,
}

module _ (P : Platform) (X : Web3 P) where
  -- A transaction with its hash.
  abbrev pub Mined : Type 0
  Mined = Text × Transaction P

  -- The log with some more transactions.
  abbrev pub added_all : List Mined → Log P → Log P
  added_all [] l = l
  added_all ((h, t) ∷ ts) l = added_all ts (added P X h t l)

  -- What a batch of `n` items leaves: the transactions are at the end of the log, and the costs and
  -- the latencies are theirs.
  pub record IsBooked (verify_latency : P.Float) (n : ℕ) (costs : List ℕ) (latencies : List P.Float)
      (s t : State P X) : Type 0 where
    pub ready : IsReady P X t
    pub mined : List Mined
    pub logged : log P X t ≡ added_all mined (log P X s)
    pub size : length mined ≡ n
    pub gas : costs ≡ map (λ m. m.1.gas_used) mined
    pub time : latencies ≡ map (λ m. P.add verify_latency m.1.latency_ms) mined

  pub get_receipt-added :
      (h : Text) (t : Transaction P) (l : Log P) (s : State P X)
      → log P X s ≡ added P X h t l
      → get_receipt P X h s.0 ≡ some t
  unfolding get_receipt
  get_receipt-added h t l s e =
      ap (λ (k : Log P). Dict.lookup h k.transactions) e ∙ lookup-insert_self h t l.transactions

  pub receipt_of-added :
      (h : Text) (t : Transaction P) (l : Log P) (s : State P X)
      → log P X s ≡ added P X h t l
      → receipt_of P X h s ≡ (ok t, s)
  receipt_of-added h t l s e = rw (get_receipt-added h t l s e) refl

  IsBooked-first :
      (verify_latency : P.Float) (n : ℕ) (costs : List ℕ) (latencies : List P.Float)
      (s u t : State P X) (h : Text) (m : Transaction P)
      → log P X u ≡ added P X h m (log P X s)
      → IsBooked verify_latency n costs latencies u t
      → IsBooked verify_latency
          (suc n)
          (m.gas_used ∷ costs)
          (P.add verify_latency m.latency_ms ∷ latencies)
          s
          t
  IsBooked-first verify_latency n costs latencies s u t h m e b = record {
    ready = b.ready;
    mined = (h, m) ∷ b.mined;
    logged = b.logged ∙ ap (added_all b.mined) e;
    size = ap suc b.size;
    gas = ap (λ gs. m.gas_used ∷ gs) b.gas;
    time = ap (λ ls. P.add verify_latency m.latency_ms ∷ ls) b.time;
  }

  module _ (mining : IsMining P X) (verify_latency : P.Float) where
    submit_real_items_lem :
        (items : List Pending) (s : State P X)
        → IsReady P X s
        → Returns
            (submit_real_items P X verify_latency items s)
            (λ r t. IsBooked verify_latency (length items) r.0 r.1 s t)
    unfolding submit_real_items
    submit_real_items_lem [] s ready = record {
      ready = ready;
      mined = [];
      logged = refl;
      size = refl;
      gas = refl;
      time = refl;
    }
    submit_real_items_lem (item ∷ items) s ready =
        let (h, m, returned, entry, kept) =
          meta_return P X mining (codes "relay-node-001") item.data_hash item.signature_size true
            (record {
              data_hash_bytes = some item.data_hash_bytes;
              did_hash_bytes = some item.did_hash_bytes;
              signature_bytes = some item.signature_bytes;
              did_public_key = some item.did_public_key;
            })
            s ready in
        let u = (submit_item P X item s).1 in
        let Q = λ (r : List ℕ × List P.Float) (t : State P X).
          IsBooked verify_latency (suc (length items)) r.0 r.1 s t in
        let rest = submit_real_items P X verify_latency items in
        let add : Transaction P → List ℕ × List P.Float → Exec (State P X) (List ℕ × List P.Float) =
          λ m r. pure (m.gas_used ∷ r.0, P.add verify_latency m.latency_ms ∷ r.1) in
        let book = λ (m : Transaction P). rest >>= add m in
        Returns-ok (submit_item P X item) (λ h. receipt_of P X h >>= book) s Q returned
          (Returns-run (receipt_of P X h) book u Q (receipt_of-added h m (log P X s) u entry) (
            Returns_then rest (add m) u (λ r t. IsBooked verify_latency (length items) r.0 r.1 u t)
              Q (submit_real_items_lem items u kept)
              (λ r t b. IsBooked-first verify_latency (length items) r.0 r.1 s u t h m entry b)))

    -- Where the contracts are deployed, the node mines every call and keys sign, a batch returns; its
    -- items stand in their order at the end of the log as one new transaction each, the total is the
    -- gas of these, and the latencies are theirs added to the one of the verification.
    pub submit_real_batch_lem :
        (items : List Pending) (s : State P X)
        → IsReady P X s
        → Returns (submit_real_batch P X verify_latency items s) (λ r t.
          (costs : List ℕ) × (r.0 ≡ sum costs)
          × IsBooked verify_latency (length items) costs r.1 s t)
    unfolding submit_real_batch
    submit_real_batch_lem items s ready =
        let total : List ℕ × List P.Float → Exec (State P X) (ℕ × List P.Float) =
          λ r. pure (sum r.0, r.1) in
        Returns_then (submit_real_items P X verify_latency items) total s
          (λ r t. IsBooked verify_latency (length items) r.0 r.1 s t)
          (λ r t.
            (costs : List ℕ) × (r.0 ≡ sum costs)
            × IsBooked verify_latency (length items) costs r.1 s t)
          (submit_real_items_lem items s ready) (λ r t b. (r.0, refl, b))
