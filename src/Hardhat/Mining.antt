-- ===== src/Hardhat/Mining.antt =====
-- HardhatBackend where its node mines every call: both kinds of submission return.
use post_quantum_iot_auth.Prelude.{
  ℕ, ◌≡◌, Bool, true, Option, none, some, List, arith, Bytes, Text, contains, Bool-cases,
  Option-cases, inl, inr, subst, sym, ◌∙◌,
}
use post_quantum_iot_auth.Python.{
  Result, ok, Exec, lift, call, or_call, or_raise, attribute_error, on_second, ◌>>=◌,
}
use post_quantum_iot_auth.Python.Loops.{
  Returns, Returns-bind, Returns-weaken, Returns-ok, Returns_of, Returns_value,
}
use post_quantum_iot_auth.Python.Text.{encode}
use post_quantum_iot_auth.Dict
use post_quantum_iot_auth.Platform.{Platform}
use post_quantum_iot_auth.Chain.{TxKind, Transaction}
use post_quantum_iot_auth.Hardhat.Client.{Web3, ContractCall, EvmReceipt, EcdsaSignature}
use post_quantum_iot_auth.Hardhat.{
  State, Contracts, account_at, component_bytes, get_w3, accounts, deployed, add_did,
  ensure_did_registered, register_new, get_ecdsa_key, record_receipt, signed_bytes,
  submit_transaction, MetaExtras, submit_meta_transaction,
}
use post_quantum_iot_auth.Hardhat.Recording.{
  Outcome, Logs, log, added, submit_transaction-Logs, submit_meta_transaction-Logs,
}

module _ (P : Platform) (X : Web3 P) where
  -- A node that is connected, has three accounts and mines every call, and keys that sign.
  pub record IsMining : Type 0 where
    pub connected : (w : P.World) → (X.is_connected w).0 ≡ true
    pub account : (w : P.World) → (a : Text) × (account_at 2 (X.accounts w).0 ≡ ok a)
    pub mines :
        (c : X.Contract) (f : ContractCall) (sender : Text) (w : P.World)
        → (r : EvmReceipt) × ((X.transact c f sender w).0 ≡ ok r)
    pub address : (key : Bytes) → (a : Text) × (X.address_of key ≡ ok a)
    pub signs :
        (hash key : Bytes)
        → (sig : EcdsaSignature) × (r : Bytes) × (s : Bytes) × (X.sign_hash hash key ≡ ok sig)
          × (component_bytes sig.r ≡ ok r)
          × (component_bytes sig.s ≡ ok s)

  abbrev pub IsReady : State P X → Type 0
  IsReady s = (c : Contracts P X) × (s.0.contracts ≡ some c)

  -- With the contracts deployed `m` returns, and they stay deployed.
  record Keeps {A : Type 0} (m : Exec (State P X) A) : Type 0 where
    at : (s : State P X) → IsReady s → Returns (m s) (λ _ t. IsReady t)

  module _ {A B : Type 0} where
    Keeps-bind :
        (m : Exec (State P X) A) (f : A → Exec (State P X) B)
        → Keeps m
        → ((a : A) → Keeps (f a))
        → Keeps (m >>= f)
    Keeps-bind m f km kf = record {
      at = λ s h.
          Returns-bind m f s (λ _ t. IsReady t)
            (Returns-weaken (m s).0 (m s).1 (λ _ t. IsReady t) _ (λ a t g. (kf a).at t g)
              (km.at s h));
    }

    -- A step that cannot fail, with what is known of its value.
    Keeps-lift :
        (r : Result A) (f : A → Exec (State P X) B) (a : A)
        → r ≡ ok a
        → Keeps (f a)
        → Keeps (lift r >>= f)
    Keeps-lift r f a e k = record {
      at = λ s h. Returns-ok (lift r) f s (λ _ t. IsReady t) e (k.at s h);
    }

  module _ {A : Type 0} where
    Keeps-call : (m : P.World → A × P.World) → Keeps (on_second (call m))
    Keeps-call m = record { at = λ s h. h }

    Keeps-or_call :
        (o : Option A) (m : P.World → A × P.World) → Keeps (or_call o (on_second (call m)))
    Keeps-or_call none m = Keeps-call m
    Keeps-or_call (some a) m = record { at = λ s h. h }

  module _ (mining : IsMining) where
    get_w3-Keeps : Keeps (get_w3 P X)
    unfolding get_w3
    get_w3-Keeps = record {
      at = λ s h. elim (Bool-cases s.0.has_w3) [
        | inl open_ ↦ rw open_ h
        | inr closed ↦ rw (closed, mining.connected s.1) h
      ];
    }

    accounts-Keeps :
        {A : Type 0} (f : List Text → Exec (State P X) A)
        → ((l : List Text) (a : Text) → account_at 2 l ≡ ok a → Keeps (f l))
        → Keeps (accounts P X >>= f)
    unfolding accounts
    accounts-Keeps f k = record {
      at = λ (b, w) h.
          (k (X.accounts w).0 (mining.account w).0 (mining.account w).1).at (b, (X.accounts w).1) h;
    }

    deployed-Keeps : Keeps (deployed P X)
    deployed-Keeps = record {
      at = λ s h.
          subst (λ o. Returns (or_raise {S = State P X} o attribute_error s) (λ _ t. IsReady t))
            (sym h.1) h;
    }

    transact-Keeps :
        (c : X.Contract) (f : ContractCall) (sender : Text)
        → Keeps (on_second (X.transact c f sender))
    transact-Keeps c f sender = record { at = λ s h. rw (mining.mines c f sender s.1).1 h }

    add_did-Keeps : (h : Bytes) → Keeps (add_did P X h)
    add_did-Keeps h = record { at = λ s k. k }

    register_new-Keeps : (h k : Bytes) → Keeps (register_new P X h k)
    unfolding register_new
    register_new-Keeps h k =
        search (Keeps-bind, get_w3-Keeps, deployed-Keeps, transact-Keeps, add_did-Keeps)

    ensure_did_registered-Keeps : (h k : Bytes) → Keeps (ensure_did_registered P X h k)
    unfolding ensure_did_registered
    ensure_did_registered-Keeps h k = record {
      at = λ s g. elim (Bool-cases (contains h s.0.registered_dids)) [
        | inl old ↦ rw old g
        | inr unknown ↦ rw unknown ((register_new-Keeps h k).at s g)
      ];
    }

    get_ecdsa_key-Keeps : (sender : Text) → Keeps (get_ecdsa_key P X sender)
    unfolding get_ecdsa_key
    get_ecdsa_key-Keeps sender = record {
      at = λ s h.
          let m = get_ecdsa_key P X sender in
          let (address, made) = mining.address (P.sha256 (encode sender)) in
          let same : (m s).1.0.contracts ≡ s.0.contracts = ground arith in
          elim (Option-cases (Dict.lookup sender s.0.ecdsa_keys)) [
            | inl new ↦
                Returns_of (m s).0 (m s).1 (λ _ t. IsReady t)
                  {a = (address, P.sha256 (encode sender))} (ground (arith, made)) (h.0, same ∙ h.1)
            | inr (pair, old) ↦
                Returns_of (m s).0 (m s).1 (λ _ t. IsReady t) {a = pair} (ground arith)
                  (h.0, same ∙ h.1)
          ];
    }

    record_receipt-Keeps :
        (sender data_hash : Text) (kind : TxKind) (start : P.Float) (r : EvmReceipt)
        → Keeps (record_receipt P X sender data_hash kind start r)
    unfolding record_receipt
    record_receipt-Keeps sender data_hash kind start r = record { at = λ s h. h }

    ruleset mining_rules = (
      Keeps-bind, get_w3-Keeps, deployed-Keeps, transact-Keeps, ensure_did_registered-Keeps,
      get_ecdsa_key-Keeps, record_receipt-Keeps, Keeps-call, Keeps-or_call,
    )

    submit_meta_transaction-Keeps :
        (relay data_hash : Text) (size : ℕ) (active : Bool) (extras : MetaExtras P X)
        → Keeps (submit_meta_transaction P X relay data_hash size active extras)
    unfolding submit_meta_transaction
    submit_meta_transaction-Keeps relay data_hash size active extras = search mining_rules depth 14

    sign_hash-Keeps :
        {A : Type 0} (hash key : Bytes) (f : EcdsaSignature → Exec (State P X) A)
        → ((sig : EcdsaSignature) (r s : Bytes)
            → component_bytes sig.r ≡ ok r
            → component_bytes sig.s ≡ ok s
            → Keeps (f sig))
        → Keeps (lift (X.sign_hash hash key) >>= f)
    sign_hash-Keeps hash key f k =
        let (sig, r, s, signed, first, second) = mining.signs hash key in
        Keeps-lift (X.sign_hash hash key) f sig signed (k sig r s first second)

    submit_transaction-Keeps :
        (sender data_hash : Text) (size : ℕ) (store : Bool) (b : Bytes)
        → signed_bytes P X data_hash ≡ ok b
        → Keeps (submit_transaction P X sender data_hash size store)
    unfolding submit_transaction
    submit_transaction-Keeps sender data_hash size store b e =
        search (mining_rules, accounts-Keeps, sign_hash-Keeps, Keeps-lift) depth 24

    -- What is returned is recorded.
    recorded :
        (m : Exec (State P X) Text) (s : State P X)
        → IsReady s
        → Keeps m
        → Logs P X m
        → (h : Text) × (t : Transaction P) × ((m s).0 ≡ ok h)
          × (log P X (m s).1 ≡ added P X h t (log P X s))
    recorded m s ready k logs =
        let (h, returned, _) = Returns_value (m s).0 (m s).1 (λ _ t. IsReady t) (k.at s ready) in
        let (t, entry) =
          subst (λ o. Outcome P X o (log P X s) (log P X (m s).1)) returned (logs.at s) in
        (h, t, returned, entry)

    -- The call of a contract is mined and recorded, and the contracts stay deployed.
    abbrev pub IsMined : Exec (State P X) Text → State P X → Type 0
    IsMined m s =
        (h : Text) × (t : Transaction P) × ((m s).0 ≡ ok h)
        × (log P X (m s).1 ≡ added P X h t (log P X s))
        × IsReady (m s).1

    Keeps-IsMined :
        (m : Exec (State P X) Text) (s : State P X) → IsReady s → Keeps m → Logs P X m → IsMined m s
    Keeps-IsMined m s ready keeps logs =
        let (h, t, returned, entry) = recorded m s ready keeps logs in
        let (_, _, kept) = Returns_value (m s).0 (m s).1 (λ _ t. IsReady t) (keeps.at s ready) in
        (h, t, returned, entry, kept)

    pub meta_return :
        (relay data_hash : Text) (size : ℕ) (active : Bool) (extras : MetaExtras P X)
        (s : State P X)
        → IsReady s
        → IsMined (submit_meta_transaction P X relay data_hash size active extras) s
    meta_return relay data_hash size active extras s ready =
        Keeps-IsMined _ s ready (submit_meta_transaction-Keeps relay data_hash size active extras)
          (submit_meta_transaction-Logs P X relay data_hash size active extras)

    pub direct_return :
        (sender data_hash : Text) (size : ℕ) (store : Bool) (b : Bytes) (s : State P X)
        → signed_bytes P X data_hash ≡ ok b
        → IsReady s
        → IsMined (submit_transaction P X sender data_hash size store) s
    direct_return sender data_hash size store b s e ready =
        Keeps-IsMined _ s ready (submit_transaction-Keeps sender data_hash size store b e)
          (submit_transaction-Logs P X sender data_hash size store)

    -- Where the contracts are deployed, the node mines every call, keys sign, and the hash of the
    -- data can be read, both kinds of submission return a hash, which stands for one new transaction
    -- at the end of the log.
    pub submissions_return :
        (sender data_hash : Text) (size : ℕ) (flag : Bool) (extras : MetaExtras P X) (s : State P X)
        (b : Bytes)
        → IsReady s
        → signed_bytes P X data_hash ≡ ok b
        → let (r, s') = submit_transaction P X sender data_hash size flag s in
          let (q, s'') = submit_meta_transaction P X sender data_hash size flag extras s in
          ((h : Text) × (t : Transaction P) × (r ≡ ok h) × (log P X s' ≡ added P X h t (log P X s)))
          × ((h : Text) × (t : Transaction P) × (q ≡ ok h)
              × (log P X s'' ≡ added P X h t (log P X s)))
    submissions_return sender data_hash size flag extras s b ready e = (
      recorded _ s ready (submit_transaction-Keeps sender data_hash size flag b e)
          (submit_transaction-Logs P X sender data_hash size flag),
      recorded _ s ready (submit_meta_transaction-Keeps sender data_hash size flag extras)
          (submit_meta_transaction-Logs P X sender data_hash size flag extras),
    )
