-- ===== src/Falcon/Crypto.antt =====
-- What shared/falcon_utils.py takes from liboqs, pqcrypto and the Ed25519 of `cryptography`.
use post_quantum_iot_auth.Prelude.{◌≡◌, Bool, Option, Bytes, length}
use post_quantum_iot_auth.Python.{Result, ok, Exec}
use post_quantum_iot_auth.Platform.{Platform}

-- `FalconKeyPair`
pub record KeyPair : Type 0 where
  pub public_key : Bytes
  pub private_key : Bytes

pub record Libraries (P : Platform) : Type 1 where
  -- `platform.system() == "Linux"`
  pub is_linux : Bool
  -- `importlib.import_module("oqs")` and a first `Signature("Falcon-512")`
  pub import_oqs : Result (Unit {0})
  -- `from pqcrypto.sign import falcon_512`
  pub import_pqcrypto : Result (Unit {0})
  -- liboqs: the public key and the exported secret key; a signature; a verdict
  pub oqs_generate_keypair : Option Bytes → Exec P.World (Bytes × Bytes)
  pub oqs_sign : Bytes → Bytes → Exec P.World Bytes
  pub oqs_verify : Bytes → Bytes → Bytes → Result Bool
  -- pqcrypto, whose functions take the key first
  pub pq_generate_keypair : Exec P.World (Bytes × Bytes)
  pub pq_sign : Bytes → Bytes → Exec P.World Bytes
  pub pq_verify : Bytes → Bytes → Bytes → Result Bool
  -- `Ed25519PrivateKey` and `Ed25519PublicKey`
  pub PrivateKey : Type 0
  pub PublicKey : Type 0
  pub from_private_bytes : Bytes → Result PrivateKey
  pub generate : P.World → PrivateKey × P.World
  pub private_bytes_raw : PrivateKey → Bytes
  pub public_key : PrivateKey → PublicKey
  pub public_bytes_raw : PublicKey → Bytes
  pub sign : PrivateKey → Bytes → Bytes
  pub from_public_bytes : Bytes → Result PublicKey
  pub verify : PublicKey → Bytes → Bytes → Result (Unit {0})

-- What is documented of Ed25519: the sizes of keys and signatures, that keys can be written and read
-- back, that 32 bytes make a private key, and that a key's own signatures are accepted.
pub record IsEd25519 (P : Platform) (L : Libraries P) : Type 0 where
  pub private_size : (k : L.PrivateKey) → length (L.private_bytes_raw k) ≡ 32
  pub public_size : (k : L.PublicKey) → length (L.public_bytes_raw k) ≡ 32
  pub signature_size : (k : L.PrivateKey) (m : Bytes) → length (L.sign k m) ≡ 64
  pub read_private : (k : L.PrivateKey) → L.from_private_bytes (L.private_bytes_raw k) ≡ ok k
  pub read_public : (k : L.PublicKey) → L.from_public_bytes (L.public_bytes_raw k) ≡ ok k
  pub any_private :
      (b : Bytes) → length b ≡ 32 → (k : L.PrivateKey) × (L.from_private_bytes b ≡ ok k)
  pub accepts : (k : L.PrivateKey) (m : Bytes) → L.verify (L.public_key k) (L.sign k m) m ≡ ok tt
