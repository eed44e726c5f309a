-- ===== src/Falcon.antt =====
-- shared/falcon_utils.py: the choice of a cryptographic backend, and the functions that dispatch to it.
-- `Falcon.Crypto` holds what the third-party packages provide.
pub mod Crypto
pub mod Simulation
pub mod Padding
pub mod RoundTrip
pub mod Dispatch
use post_quantum_iot_auth.Prelude.{
  ℕ, Bool, true, false, not, Option, none, some, if◌then◌else◌, Bytes,
}
use post_quantum_iot_auth.Python.{
  Error, import_error, Result, ok, raised, Exec, pure, lift, catch_all, ◌>>=◌,
}
use post_quantum_iot_auth.Platform.{Platform}
use post_quantum_iot_auth.Falcon.Crypto.{Libraries, KeyPair}
use post_quantum_iot_auth.Falcon.Simulation.{simulation_keygen, simulation_sign, simulation_verify}

pub data Backend : Type 0 where
  liboqs pqcrypto simulation : Backend

-- `_oqs_available` and `_pqcrypto_available`
pub record Flags : Type 0 where
  pub oqs_available : Bool
  pub pqcrypto_available : Bool

-- `except Exception`: any failure of the import means that liboqs is not there.
abbrev succeeds : Result (Unit {0}) → Bool
succeeds (ok _) = true
succeeds (raised _) = false

-- `except ImportError`: any other exception leaves the module.
abbrev importable : Result (Unit {0}) → Result Bool
importable (ok _) = ok true
importable (raised import_error) = ok false
importable (raised e) = raised e

-- The `_BACKEND` that the last lines of the detection set.
unfoldable pub get_backend : Flags → Backend
get_backend f =
    if f.oqs_available then liboqs else if f.pqcrypto_available then pqcrypto else simulation

module _ (P : Platform) (L : Libraries P) where
  open P use {World}

  unfoldable pub detect : Result Flags
  detect =
      let oqs = if L.is_linux then succeeds L.import_oqs else false in
      if oqs
      then ok (record { oqs_available = true; pqcrypto_available = false })
      else elim (importable L.import_pqcrypto) [
        | ok pq ↦ ok (record { oqs_available = false; pqcrypto_available = pq })
        | raised e ↦ raised e
      ]

  abbrev key_pair : Bytes × Bytes → Exec World KeyPair
  key_pair (pk, sk) = pure (record { public_key = pk; private_key = sk })

  unfoldable pub liboqs_keygen : Option Bytes → Exec World KeyPair
  liboqs_keygen seed = do keys ← L.oqs_generate_keypair seed; key_pair keys

  unfoldable pub liboqs_sign : Bytes → Bytes → Exec World Bytes
  liboqs_sign message private_key = L.oqs_sign private_key message

  unfoldable pub liboqs_verify : Bytes → Bytes → Bytes → Result Bool
  liboqs_verify message signature public_key = L.oqs_verify message signature public_key

  -- The seed is ignored, with a warning in the log.
  unfoldable pub pqcrypto_keygen : Option Bytes → Exec World KeyPair
  pqcrypto_keygen seed = do keys ← L.pq_generate_keypair; key_pair keys

  unfoldable pub pqcrypto_sign : Bytes → Bytes → Exec World Bytes
  pqcrypto_sign message private_key = L.pq_sign private_key message

  unfoldable pub pqcrypto_verify : Bytes → Bytes → Bytes → Result Bool
  pqcrypto_verify message signature public_key =
      ok (catch_all (L.pq_verify public_key message signature) false)

  module _ (f : Flags) where
    unfoldable pub falcon_keygen : Option Bytes → Exec World KeyPair
    falcon_keygen seed =
        if f.oqs_available
        then liboqs_keygen seed
        else if f.pqcrypto_available
        then pqcrypto_keygen seed
        else simulation_keygen P L seed

    unfoldable pub falcon_sign : Bytes → Bytes → Exec World Bytes
    falcon_sign message private_key =
        if f.oqs_available
        then liboqs_sign message private_key
        else if f.pqcrypto_available
        then pqcrypto_sign message private_key
        else lift (simulation_sign P L message private_key)

    unfoldable pub falcon_verify : Bytes → Bytes → Bytes → Result Bool
    falcon_verify message signature public_key =
        if f.oqs_available
        then liboqs_verify message signature public_key
        else if f.pqcrypto_available
        then pqcrypto_verify message signature public_key
        else ok (simulation_verify P L message signature public_key)

    unfoldable pub falcon_sign_message : Bytes → KeyPair → Exec World Bytes
    falcon_sign_message message keypair = falcon_sign message keypair.private_key

    unfoldable pub falcon_verify_message : Bytes → Bytes → KeyPair → Result Bool
    falcon_verify_message message signature keypair =
        falcon_verify message signature keypair.public_key
