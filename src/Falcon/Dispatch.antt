-- ===== src/Falcon/Dispatch.antt =====
-- The public functions of shared/falcon_utils.py go to the backend that `get_backend` names.
use post_quantum_iot_auth.Prelude.{
  ℕ, ◌≡◌, Bool, true, false, Option, arith, Bytes, length, take, ◌≤◌,
}
use post_quantum_iot_auth.Python.{Result, ok, raised, import_error}
use post_quantum_iot_auth.Platform.{Platform, IsDocumented}
use post_quantum_iot_auth.Falcon.Crypto.{Libraries, KeyPair, IsEd25519}
use post_quantum_iot_auth.Falcon.Simulation.{simulation_verify}
use post_quantum_iot_auth.Falcon.RoundTrip.{
  simulation_keygen-Carries, simulation_verify-sign, simulation_verify-take,
}
use post_quantum_iot_auth.Falcon.{
  Backend, liboqs, pqcrypto, simulation, Flags, get_backend, detect, falcon_keygen, falcon_sign,
  falcon_verify, liboqs_verify, pqcrypto_verify, falcon_sign_message, falcon_verify_message,
}

-- The documented order: liboqs where it loads on Linux, else pqcrypto, else the simulation.
abbrev pub preferred : Bool → Result (Unit {0}) → Result (Unit {0}) → Result Backend
preferred true (ok _) pq = ok liboqs
preferred true (raised _) (ok _) = ok pqcrypto
preferred true (raised _) (raised import_error) = ok simulation
preferred true (raised _) (raised e) = raised e
preferred false oqs (ok _) = ok pqcrypto
preferred false oqs (raised import_error) = ok simulation
preferred false oqs (raised e) = raised e

abbrev pub backend_of : Result Flags → Result Backend
backend_of (ok f) = ok (get_backend f)
backend_of (raised e) = raised e

module _ (P : Platform) (L : Libraries P) where
  -- The backend in use is the first, in the documented order, that loads; that of an import that
  -- fails with another exception than ImportError is none: the exception leaves the module.
  pub get_backend-detect :
      backend_of (detect P L) ≡ preferred L.is_linux L.import_oqs L.import_pqcrypto
  unfolding detect get_backend
  get_backend-detect = ground arith

  -- The verdict comes from the backend in use; only that of liboqs lets an exception through.
  pub falcon_verify-get_backend :
      (f : Flags) (m s key : Bytes)
      → falcon_verify P L f m s key ≡ elim (get_backend f) [
        | liboqs ↦ L.oqs_verify m s key
        | pqcrypto ↦ pqcrypto_verify P L m s key
        | simulation ↦ ok (simulation_verify P L m s key)
      ]
  unfolding falcon_verify get_backend liboqs_verify
  falcon_verify-get_backend f m s key = ground arith

  -- The simulation backend looks at 64 bytes of a signature and 32 of a key: cut anywhere after
  -- those, they pass or fail as the whole ones do.
  pub falcon_verify-take :
      (f : Flags) (m s key : Bytes) (n j : ℕ)
      → get_backend f ≡ simulation
      → 64 ≤ n
      → 32 ≤ j
      → falcon_verify P L f m (take n s) (take j key) ≡ falcon_verify P L f m s key
  unfolding falcon_verify get_backend
  falcon_verify-take f m s key n j sim h i =
      ground (arith, simulation_verify-take P L m s key n j h i)

  module _ (doc : IsDocumented P) (ed : IsEd25519 P L) where
    -- With hashes of 32 bytes and Ed25519 as documented, in the simulation backend key generation, signing and verification fit together: for every
    -- message the key pair that is generated signs, at 752 bytes, what it then verifies.
    pub falcon_verify_message-sign :
        (f : Flags) (seed : Option Bytes) (m : Bytes) (w v : P.World)
        → get_backend f ≡ simulation
        → (keys : KeyPair) × (s : Bytes) × ((falcon_keygen P L f seed w).0 ≡ ok keys)
          × ((falcon_sign_message P L f m keys v).0 ≡ ok s)
          × (falcon_verify_message P L f m s keys ≡ ok true)
          × (length s ≡ 752)
          × (length keys.public_key ≡ 897)
          × (length keys.private_key ≡ 1281)
    unfolding falcon_keygen falcon_sign_message falcon_sign falcon_verify_message falcon_verify
        get_backend
    falcon_verify_message-sign f seed m w v sim =
        let (k, keys, made, c) = simulation_keygen-Carries P L doc ed seed w in
        let (s, signed, size, good) = simulation_verify-sign P L doc ed k keys m c in
        (
          keys,
          s,
          ground (arith, made),
          ground (arith, signed),
          ground (arith, good),
          size,
          c.public_size,
          c.private_size,
        )
