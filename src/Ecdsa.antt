-- ===== src/Ecdsa.antt =====
-- What the program takes from `cryptography` for ECDSA over secp256k1 with SHA-256.
use post_quantum_iot_auth.Prelude.{ℕ, ◌^◌, ◌<◌, ◌≡◌, ◌∷◌, Bytes, length}
use post_quantum_iot_auth.Python.{Result, ok}
use post_quantum_iot_auth.Platform.{Platform}

pub record Ecdsa (P : Platform) : Type 1 where
  pub PrivateKey : Type 0
  pub PublicKey : Type 0
  -- `ec.generate_private_key` and `ec.derive_private_key`
  pub generate : P.World → PrivateKey × P.World
  pub derive : ℕ → Result PrivateKey
  -- `private_numbers().private_value`
  pub private_value : PrivateKey → ℕ
  pub public_key : PrivateKey → PublicKey
  -- the uncompressed point, and the key of one
  pub public_bytes : PublicKey → Bytes
  pub from_encoded_point : Bytes → Result PublicKey
  -- `sign` and `verify`, of signatures in DER
  pub sign : PrivateKey → Bytes → P.World → Bytes × P.World
  pub verify : PublicKey → Bytes → Bytes → Result (Unit {0})
  -- `encode_dss_signature` and `decode_dss_signature`
  pub encode_dss : ℕ → ℕ → Bytes
  pub decode_dss : Bytes → Result (ℕ × ℕ)

-- What is documented of it: a private key is a number below 2 ^ 256, by which it is found again; a
-- public key is written as the byte 4 and 64 bytes, and read back; a signature is a pair of such
-- numbers in DER, which is found again from them, and the key that made it accepts it.
pub record IsEcdsa (P : Platform) (E : Ecdsa P) : Type 0 where
  pub value_bound : (k : E.PrivateKey) → E.private_value k < 2 ^ 256
  pub derive_value : (k : E.PrivateKey) → E.derive (E.private_value k) ≡ ok k
  pub point : (k : E.PublicKey) → (b : Bytes) × (E.public_bytes k ≡ 4 ∷ b) × (length b ≡ 64)
  pub read_point : (k : E.PublicKey) → E.from_encoded_point (E.public_bytes k) ≡ ok k
  pub numbers :
      (k : E.PrivateKey) (m : Bytes) (w : P.World)
      → (r : ℕ) × (s : ℕ) × (E.decode_dss (E.sign k m w).0 ≡ ok (r, s))
        × (r < 2 ^ 256)
        × (s < 2 ^ 256)
        × (E.encode_dss r s ≡ (E.sign k m w).0)
  pub accepts :
      (k : E.PrivateKey) (m : Bytes) (w : P.World)
      → E.verify (E.public_key k) (E.sign k m w).0 m ≡ ok tt
