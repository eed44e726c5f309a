-- ===== src/Benchmark/RoundTrip.antt =====
-- The schemes of crypto_benchmark/benchmark.py that fit together: what a new key signs, it verifies.
use post_quantum_iot_auth.Prelude.{
  ℕ, zero, suc, ◌≡◌, refl, ap, ◌∙◌, Bool, true, false, none, some, [], ◌∷◌, ◌++◌, arith, Bytes,
  codes, beq, length, length-append, take, drop, take-append, take-all,
}
use post_quantum_iot_auth.Python.{Result, ok, raised, Exec, pure, lift, ◌>>=◌}
use post_quantum_iot_auth.Python.Loops.{
  Returns, Returns-ok, Returns_of, Returns-weaken, Returns_value,
}
use post_quantum_iot_auth.Python.Integers.{to_bytes32, from_bytes, to_bytes32-from_bytes}
use post_quantum_iot_auth.Platform.{Platform, IsDocumented}
use post_quantum_iot_auth.Falcon.{
  Flags, simulation, get_backend, falcon_keygen, falcon_sign, falcon_verify,
}
use post_quantum_iot_auth.Falcon.Crypto.{Libraries, KeyPair, IsEd25519}
use post_quantum_iot_auth.Falcon.RoundTrip.{
  Carries, simulation_keygen-Carries, simulation_verify-sign,
}
use post_quantum_iot_auth.Ecdsa.{Ecdsa, IsEcdsa}
use post_quantum_iot_auth.Benchmark.Crypto.{Dilithium}
use post_quantum_iot_auth.Benchmark.Scheme.{
  CryptoScheme, scheme_sizes, ecdsa_keygen, ecdsa_sign, ecdsa_verify, keygen, sign, verify,
  both_keys,
}

drop-append : (n : ℕ) (a b : Bytes) → length a ≡ n → drop n (a ++ b) ≡ b
drop-append zero [] b h = refl
drop-append zero (x ∷ a) b h = absurd (omega arith)
drop-append (suc n) [] b h = absurd (omega arith)
drop-append (suc n) (x ∷ a) b h = drop-append n a b (omega arith)

module _ (P : Platform) (L : Libraries P) (f : Flags) (E : Ecdsa P) (D : Dilithium P) where
  -- The keys that a scheme makes sign, at the size of the scheme, what they then verify.
  pub record Works (c : CryptoScheme) (IsKey : Bytes → Bytes → Type 0) : Type 0 where
    pub makes : (w : P.World) → Returns (keygen P L f E D c.name w) (λ kp _. IsKey kp.0 kp.1)
    pub public_size : (pk sk : Bytes) → IsKey pk sk → length pk ≡ c.public_key_size
    pub signs :
        (pk sk m : Bytes) (w : P.World)
        → IsKey pk sk
        → Returns
            (sign P L f E D c.name m sk w)
            (λ s _. (length s ≡ c.signature_size) × (verify P L f E D c.name m s pk ≡ ok true))

  module _ (documented : IsEcdsa P E) where
    -- The bytes of a private key and of its public key.
    pub record IsEcdsaKey (pk sk : Bytes) : Type 0 where
      pub key : E.PrivateKey
      pub secret : from_bytes sk ≡ E.private_value key
      pub point : E.public_bytes (E.public_key key) ≡ 4 ∷ pk
      pub size : length pk ≡ 64

    ecdsa_keygen-IsEcdsaKey :
        (w : P.World) → Returns (ecdsa_keygen P L f E D w) (λ kp _. IsEcdsaKey kp.0 kp.1)
    unfolding ecdsa_keygen
    ecdsa_keygen-IsEcdsaKey w =
        let k = (E.generate w).0 in
        let w' = (E.generate w).1 in
        let (sk, made, _, read) =
          to_bytes32-from_bytes (E.private_value k) (documented.value_bound k) in
        let (pk, e, size) = documented.point (E.public_key k) in
        let finish : Bytes → Exec P.World (Bytes × Bytes) =
          λ b. pure (drop 1 (E.public_bytes (E.public_key k)), b) in
        Returns-ok (lift (to_bytes32 (E.private_value k))) finish w' (λ kp _. IsEcdsaKey kp.0 kp.1)
          made (record { key = k; secret = read; point = rw e refl; size = rw e size })

    ecdsa_verify-sign :
        (pk sk m : Bytes) (w : P.World)
        → IsEcdsaKey pk sk
        → Returns
            (ecdsa_sign P L f E D m sk w)
            (λ s _. (length s ≡ 64) × (ecdsa_verify P L f E D m s pk ≡ true))
    unfolding ecdsa_sign ecdsa_verify
    ecdsa_verify-sign pk sk m w k =
        let (r, t, decoded, r_bound, t_bound, encoded) = documented.numbers k.key m w in
        let (a, a_made, a_size, a_read) = to_bytes32-from_bytes r r_bound in
        let (b, b_made, b_size, b_read) = to_bytes32-from_bytes t t_bound in
        let found : E.derive (from_bytes sk) ≡ ok k.key =
          rw k.secret (documented.derive_value k.key) in
        let der = (E.sign k.key m w).0 in
        let point : E.from_encoded_point (4 ∷ pk) ≡ ok (E.public_key k.key) =
          rw (← k.point) (documented.read_point (E.public_key k.key)) in
        let first : take 32 (a ++ b) ≡ a =
          take-append 32 a b (omega arith) ∙ take-all 32 a a_size in
        let second : drop 32 (a ++ b) ≡ b = drop-append 32 a b a_size in
        let signed : (ecdsa_sign P L f E D m sk w).0 ≡ ok (a ++ b) =
          rw (found, decoded, a_made, b_made) refl in
        let verified : ecdsa_verify P L f E D m (a ++ b) pk ≡ true =
          rw (first, second, a_read, b_read, encoded, point)
            (ap (λ (o : Result (Unit {0})). elim o [ ok _ ↦ true | raised e ↦ false ])
              (documented.accepts k.key m w)) in
        Returns_of (ecdsa_sign P L f E D m sk w).0 (ecdsa_sign P L f E D m sk w).1
          (λ s _. (length s ≡ 64) × (ecdsa_verify P L f E D m s pk ≡ true)) signed
          (omega (arith, length-append a b), verified)

    abbrev pub ecdsa_scheme : CryptoScheme
    ecdsa_scheme = record { name = codes "ECDSA"; public_key_size = 64; signature_size = 64 }

    pub ecdsa-Works : Works ecdsa_scheme IsEcdsaKey
    unfolding keygen sign verify beq
    ecdsa-Works = record {
      makes = ecdsa_keygen-IsEcdsaKey;
      public_size = λ pk sk k. k.size;
      signs = λ pk sk m w k.
          Returns-weaken (ecdsa_sign P L f E D m sk w).0 (ecdsa_sign P L f E D m sk w).1
            (λ s _. (length s ≡ 64) × (ecdsa_verify P L f E D m s pk ≡ true))
            (λ s _.
              (length s ≡ 64)
              × (◌≡◌ {A = Result Bool} (ok (ecdsa_verify P L f E D m s pk)) (ok true)))
            (λ s _ h. (h.0, ap ok h.1)) (ecdsa_verify-sign pk sk m w k);
    }

    -- With ECDSA as documented, the scheme "ECDSA" makes keys of the sizes in its table, by which a
    -- message is signed with 64 bytes that it verifies.
    pub verify-sign :
        (m : Bytes) (w v : P.World)
        → (pk sk s : Bytes) × ((keygen P L f E D (codes "ECDSA") w).0 ≡ ok (pk, sk))
          × ((sign P L f E D (codes "ECDSA") m sk v).0 ≡ ok s)
          × (verify P L f E D (codes "ECDSA") m s pk ≡ ok true)
          × (scheme_sizes (codes "ECDSA") ≡ some (length pk, length s))
    unfolding scheme_sizes beq
    verify-sign m w v =
        let made = keygen P L f E D (codes "ECDSA") w in
        let ((pk, sk), e, k) = Returns_value made.0 made.1 _ (ecdsa-Works.makes w) in
        let out = sign P L f E D (codes "ECDSA") m sk v in
        let (s, signed, (size, good)) =
          Returns_value out.0 out.1 _ (ecdsa-Works.signs pk sk m v k) in
        (pk, sk, s, e, signed, good, rw (size, k.size) refl)

  module _ (doc : IsDocumented P) (ed : IsEd25519 P L) where
    -- The bytes of a simulated Falcon key.
    abbrev pub IsFalconKey : Bytes → Bytes → Type 0
    IsFalconKey pk sk =
        (k : L.PrivateKey) × Carries P L k (record { public_key = pk; private_key = sk })

    abbrev pub falcon_scheme : CryptoScheme
    falcon_scheme = record {
      name = codes "Falcon-512";
      public_key_size = 897;
      signature_size = 752;
    }

    module _ (sim : get_backend f ≡ simulation) where
      falcon_keygen-IsFalconKey :
          (w : P.World)
          → Returns
              ((falcon_keygen P L f none >>= both_keys P L f E D) w)
              (λ kp _. IsFalconKey kp.0 kp.1)
      unfolding falcon_keygen get_backend
      falcon_keygen-IsFalconKey w =
          let (k, keys, made, c) = simulation_keygen-Carries P L doc ed none w in
          let returned : (falcon_keygen P L f none w).0 ≡ ok keys = ground (arith, made, sim) in
          Returns-ok (falcon_keygen P L f none) (both_keys P L f E D) w _ returned (k, c)

      falcon_verify-sign :
          (pk sk m : Bytes) (w : P.World)
          → IsFalconKey pk sk
          → Returns
              (falcon_sign P L f m sk w)
              (λ s _. (length s ≡ 752) × (falcon_verify P L f m s pk ≡ ok true))
      unfolding falcon_sign falcon_verify get_backend
      falcon_verify-sign pk sk m w (k, c) =
          let keys : KeyPair = record { public_key = pk; private_key = sk } in
          let (s, signed, size, good) = simulation_verify-sign P L doc ed k keys m c in
          let returned : (falcon_sign P L f m sk w).0 ≡ ok s = ground (arith, signed, sim) in
          let verified : falcon_verify P L f m s pk ≡ ok true = ground (arith, good, sim) in
          Returns_of (falcon_sign P L f m sk w).0 (falcon_sign P L f m sk w).1
            (λ t _. (length t ≡ 752) × (falcon_verify P L f m t pk ≡ ok true)) returned
            (size, verified)

      pub falcon-Works : Works falcon_scheme IsFalconKey
      unfolding keygen sign verify beq
      falcon-Works = record {
        makes = falcon_keygen-IsFalconKey;
        public_size = λ pk sk k. k.1.public_size;
        signs = falcon_verify-sign;
      }
