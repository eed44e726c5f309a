-- ===== src/Benchmark/Scheme.antt =====
-- `CryptoScheme` of crypto_benchmark/benchmark.py.
use post_quantum_iot_auth.Prelude.{
  ℕ, Bool, true, false, Option, none, some, ◌∷◌, ◌++◌, Bytes, Text, codes, beq, starts_with, take,
  drop, if◌then◌else◌,
}
use post_quantum_iot_auth.Python.{
  value_error, Result, ok, raised, Exec, pure, raise, lift, call, ◌>>=◌,
}
use post_quantum_iot_auth.Python.Integers.{to_bytes32, from_bytes}
use post_quantum_iot_auth.Platform.{Platform}
use post_quantum_iot_auth.Config.{
  falcon_512_public_key_size, falcon_512_signature_size_max, ecdsa_public_key_size,
  ecdsa_signature_size, ml_dsa_44_public_key_size, ml_dsa_44_signature_size,
  ml_dsa_65_public_key_size, ml_dsa_65_signature_size,
}
use post_quantum_iot_auth.Falcon.{Flags, falcon_keygen, falcon_sign, falcon_verify}
use post_quantum_iot_auth.Falcon.Crypto.{Libraries, KeyPair}
use post_quantum_iot_auth.Ecdsa.{Ecdsa}
use post_quantum_iot_auth.Benchmark.Crypto.{Dilithium}
use post_quantum_iot_auth.Benchmark.Dilithium.{dilithium_keygen, dilithium_sign, dilithium_verify}

-- `_SCHEME_SIZES`: the sizes of a public key and of a signature
unfoldable pub scheme_sizes : Text → Option (ℕ × ℕ)
scheme_sizes name =
    if beq name (codes "Falcon-512")
    then some (falcon_512_public_key_size, falcon_512_signature_size_max)
    else if beq name (codes "ECDSA")
    then some (ecdsa_public_key_size, ecdsa_signature_size)
    else if beq name (codes "Dilithium2")
    then some (ml_dsa_44_public_key_size, ml_dsa_44_signature_size)
    else if beq name (codes "Dilithium3")
    then some (ml_dsa_65_public_key_size, ml_dsa_65_signature_size)
    else none

pub record CryptoScheme : Type 0 where
  pub name : Text
  pub public_key_size : ℕ
  pub signature_size : ℕ

-- `CryptoScheme(name)`
unfoldable pub new_scheme : Text → Result CryptoScheme
new_scheme name = elim (scheme_sizes name) [
  | none ↦ raised value_error
  | some (key, sig) ↦ ok (record { name = name; public_key_size = key; signature_size = sig })
]

module _ (P : Platform) (L : Libraries P) (f : Flags) (E : Ecdsa P) (D : Dilithium P) where
  open P use {World}

  unfoldable pub ecdsa_keygen : Exec World (Bytes × Bytes)
  ecdsa_keygen = do
    priv ← call E.generate
    let pub_bytes = drop 1 (E.public_bytes (E.public_key priv))
    priv_bytes ← lift (to_bytes32 (E.private_value priv))
    pure (pub_bytes, priv_bytes)

  -- `r.to_bytes(32, "big") + s.to_bytes(32, "big")`
  abbrev pub raw_signature : ℕ × ℕ → Exec World Bytes
  raw_signature (r, s) = do
    first ← lift (to_bytes32 r)
    second ← lift (to_bytes32 s)
    pure (first ++ second)

  unfoldable pub ecdsa_sign : Bytes → Bytes → Exec World Bytes
  ecdsa_sign message private_key = do
    priv ← lift (E.derive (from_bytes private_key))
    sig_der ← call (E.sign priv message)
    numbers ← lift (E.decode_dss sig_der)
    raw_signature numbers

  abbrev accepts : Bytes → Bytes → Result E.PublicKey → Bool
  accepts message sig_der (raised e) = false
  accepts message sig_der (ok pub_) = elim (E.verify pub_ sig_der message) [
    | ok _ ↦ true
    | raised e ↦ false
  ]

  unfoldable pub ecdsa_verify : Bytes → Bytes → Bytes → Bool
  ecdsa_verify message signature public_key =
      let r = from_bytes (take 32 signature) in
      let s = from_bytes (drop 32 signature) in
      accepts message (E.encode_dss r s) (E.from_encoded_point (4 ∷ public_key))

  abbrev pub both_keys : KeyPair → Exec World (Bytes × Bytes)
  both_keys kp = pure (kp.public_key, kp.private_key)

  -- the methods of `CryptoScheme`, by the name of the scheme
  unfoldable pub keygen : Text → Exec World (Bytes × Bytes)
  keygen name =
      if beq name (codes "Falcon-512")
      then (falcon_keygen P L f none >>= both_keys)
      else if beq name (codes "ECDSA")
      then ecdsa_keygen
      else if starts_with (codes "Dilithium") name
      then dilithium_keygen P L.is_linux D name
      else raise value_error

  unfoldable pub sign : Text → Bytes → Bytes → Exec World Bytes
  sign name message private_key =
      if beq name (codes "Falcon-512")
      then falcon_sign P L f message private_key
      else if beq name (codes "ECDSA")
      then ecdsa_sign message private_key
      else if starts_with (codes "Dilithium") name
      then dilithium_sign P L.is_linux D name message private_key
      else raise value_error

  unfoldable pub verify : Text → Bytes → Bytes → Bytes → Result Bool
  verify name message signature public_key =
      if beq name (codes "Falcon-512")
      then falcon_verify P L f message signature public_key
      else if beq name (codes "ECDSA")
      then ok (ecdsa_verify message signature public_key)
      else if starts_with (codes "Dilithium") name
      then dilithium_verify P L.is_linux D name message signature public_key
      else raised value_error
