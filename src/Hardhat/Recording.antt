-- ===== src/Hardhat/Recording.antt =====
-- What a submission to HardhatBackend leaves in its log, whether it returns or raises.
use post_quantum_iot_auth.Prelude.{
  ℕ, ◌≡◌, refl, ◌∙◌, subst, Bool, Option, none, some, List, [], ◌∷◌, ◌++◌, arith, Bytes, Text,
  contains, max, Bool-cases, inl, inr,
}
use post_quantum_iot_auth.Python.{Result, ok, raised, Exec, pure, lift, or_call, on_second, ◌>>=◌}
use post_quantum_iot_auth.Dict
use post_quantum_iot_auth.Dict.{Dict}
use post_quantum_iot_auth.Platform.{Platform}
use post_quantum_iot_auth.Chain.{Transaction, TxKind}
use post_quantum_iot_auth.Hardhat.Client.{Web3, EvmReceipt}
use post_quantum_iot_auth.Hardhat.{
  State, get_w3, accounts, deployed, add_did, ensure_did_registered, register_new, get_ecdsa_key,
  record_receipt, submit_transaction, MetaExtras, submit_meta_transaction, deploy_contracts,
  set_contracts, Contracts,
}

-- The part of a backend that its submissions are for.
pub record Log (P : Platform) : Type 0 where
  pub transactions : Dict (Transaction P)
  pub tx_order : List Text
  pub block_number : ℕ

module _ (P : Platform) (X : Web3 P) where
  abbrev pub log : State P X → Log P
  log s = record {
    transactions = s.0.transactions;
    tx_order = s.0.tx_order;
    block_number = s.0.block_number;
  }

  -- the log with one more transaction
  abbrev pub added : Text → Transaction P → Log P → Log P
  added h t l = record {
    transactions = Dict.insert h t l.transactions;
    tx_order = l.tx_order ++ h ∷ [];
    block_number = max l.block_number t.block_number;
  }

  -- `m` leaves the log alone, whether it returns or raises.
  pub record Frames {A : Type 0} (m : Exec (State P X) A) : Type 0 where
    pub at : (s : State P X) → log (m s).1 ≡ log s

  -- A hash that is returned stands for one more transaction; an exception leaves the log alone.
  abbrev pub Outcome : Result Text → Log P → Log P → Type 0
  Outcome (ok h) l l' = (t : Transaction P) × (l' ≡ added h t l)
  Outcome (raised e) l l' = l' ≡ l

  pub record Logs (m : Exec (State P X) Text) : Type 0 where
    pub at : (s : State P X) → Outcome (m s).0 (log s) (log (m s).1)

  module _ {A : Type 0} where
    pub Frames-pure : (a : A) → Frames (pure a)
    Frames-pure a = record { at = λ s. refl }

    Frames-lift : (r : Result A) → Frames (lift r)
    Frames-lift r = record { at = λ s. refl }

    Frames-on_second : (m : Exec P.World A) → Frames (on_second m)
    Frames-on_second m = record { at = λ s. refl }

    Frames-or_call : (o : Option A) (m : Exec (State P X) A) → Frames m → Frames (or_call o m)
    Frames-or_call none m k = k
    Frames-or_call (some a) m k = Frames-pure a

  module _ {A B : Type 0} where
    Frames-continue :
        (r : Result A) (f : A → Exec (State P X) B) (s : State P X)
        → ((a : A) → Frames (f a))
        → log ((lift r >>= f) s).1 ≡ log s
    Frames-continue (ok a) f s k = (k a).at s
    Frames-continue (raised e) f s k = refl

    pub Frames-bind :
        (m : Exec (State P X) A) (f : A → Exec (State P X) B)
        → Frames m
        → ((a : A) → Frames (f a))
        → Frames (m >>= f)
    Frames-bind m f km kf = record { at = λ s. Frames-continue (m s).0 f (m s).1 kf ∙ km.at s }

  module _ {A : Type 0} where
    Logs-continue :
        (r : Result A) (f : A → Exec (State P X) Text) (s : State P X)
        → ((a : A) → Logs (f a))
        → Outcome ((lift r >>= f) s).0 (log s) (log ((lift r >>= f) s).1)
    Logs-continue (ok a) f s k = (k a).at s
    Logs-continue (raised e) f s k = refl

    Logs-bind :
        (m : Exec (State P X) A) (f : A → Exec (State P X) Text)
        → Frames m
        → ((a : A) → Logs (f a))
        → Logs (m >>= f)
    Logs-bind m f km kf = record {
      at = λ s.
          subst (λ l. Outcome ((m >>= f) s).0 l (log ((m >>= f) s).1)) (km.at s)
            (Logs-continue (m s).0 f (m s).1 kf);
    }

  pub get_w3-Frames : Frames (get_w3 P X)
  unfolding get_w3
  get_w3-Frames = record { at = λ s. ground arith }

  accounts-Frames : Frames (accounts P X)
  unfolding accounts
  accounts-Frames = record { at = λ s. refl }

  deployed-Frames : Frames (deployed P X)
  deployed-Frames = record { at = λ s. ground arith }

  add_did-Frames : (h : Bytes) → Frames (add_did P X h)
  add_did-Frames h = record { at = λ s. refl }

  register_new-Frames : (h k : Bytes) → Frames (register_new P X h k)
  unfolding register_new
  register_new-Frames h k =
      search (Frames-bind, get_w3-Frames, deployed-Frames, Frames-on_second, add_did-Frames)

  pub ensure_did_registered-Frames : (h k : Bytes) → Frames (ensure_did_registered P X h k)
  unfolding ensure_did_registered
  ensure_did_registered-Frames h k = record {
    at = λ s. elim (Bool-cases (contains h s.0.registered_dids)) [
      | inl old ↦ rw old refl
      | inr new ↦ rw new ((register_new-Frames h k).at s)
    ];
  }

  get_ecdsa_key-Frames : (sender : Text) → Frames (get_ecdsa_key P X sender)
  unfolding get_ecdsa_key
  get_ecdsa_key-Frames sender = record { at = λ s. ground arith }

  set_contracts-Frames : (c : Contracts P X) → Frames (set_contracts P X c)
  set_contracts-Frames c = record { at = λ s. refl }

  record_receipt-Logs :
      (sender data_hash : Text) (kind : TxKind) (start : P.Float) (r : EvmReceipt)
      → Logs (record_receipt P X sender data_hash kind start r)
  unfolding record_receipt
  record_receipt-Logs sender data_hash kind start r = record { at = λ s. (_, refl) }

  ruleset frame_rules = (
    Frames-bind, Frames-pure, Frames-lift, Frames-on_second, Frames-or_call, Logs-bind,
    get_w3-Frames, accounts-Frames, deployed-Frames, ensure_did_registered-Frames,
    get_ecdsa_key-Frames, record_receipt-Logs,
  )

  pub deploy_contracts-Frames : Frames (deploy_contracts P X)
  unfolding deploy_contracts
  deploy_contracts-Frames = search (frame_rules, set_contracts-Frames) depth 24

  -- A direct submission that returns has logged one transaction, under the hash that it returns; one
  -- that raises, wherever it does, has logged nothing.
  pub submit_transaction-Logs :
      (sender data_hash : Text) (size : ℕ) (store : Bool)
      → Logs (submit_transaction P X sender data_hash size store)
  unfolding submit_transaction
  submit_transaction-Logs sender data_hash size store = search frame_rules depth 14

  -- So has a relayed submission.
  pub submit_meta_transaction-Logs :
      (relay data_hash : Text) (size : ℕ) (active : Bool) (extras : MetaExtras P X)
      → Logs (submit_meta_transaction P X relay data_hash size active extras)
  unfolding submit_meta_transaction
  submit_meta_transaction-Logs relay data_hash size active extras = search frame_rules depth 14

  -- Both kinds of submission, in any state: the hash that is returned stands for one new transaction,
  -- last in the order; an exception leaves the entries, the order and the block number as they were.
  pub submissions-Outcome :
      (sender data_hash : Text) (size : ℕ) (flag : Bool) (extras : MetaExtras P X) (s : State P X)
      → let (r, s') = submit_transaction P X sender data_hash size flag s in
        let (q, s'') = submit_meta_transaction P X sender data_hash size flag extras s in
        Outcome r (log s) (log s') × Outcome q (log s) (log s'')
  submissions-Outcome sender data_hash size flag extras s = (
    (submit_transaction-Logs sender data_hash size flag).at s,
    (submit_meta_transaction-Logs sender data_hash size flag extras).at s,
  )
