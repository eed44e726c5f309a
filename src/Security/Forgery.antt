-- ===== src/Security/Forgery.antt =====
-- The tests of security/attack_simulation.py on forged signatures, on keys and on sizes.
use post_quantum_iot_auth.Prelude.{
  Bool, true, false, not, ◌&&◌, none, List, [], ◌∷◌, ◌++◌, codes, length, ltb, leb, ◌==◌,
}
use post_quantum_iot_auth.Python.{Result, ok, raised, Exec, lift, call, ◌>>=◌}
use post_quantum_iot_auth.Platform.{Platform}
use post_quantum_iot_auth.Config.{falcon_512_public_key_size, falcon_512_signature_size_max}
use post_quantum_iot_auth.Falcon.{Flags, falcon_keygen, falcon_sign, falcon_verify}
use post_quantum_iot_auth.Falcon.Crypto.{Libraries}
use post_quantum_iot_auth.Ecdsa.{Ecdsa}
use post_quantum_iot_auth.Security.{SecurityTestResult, conclude, details, all_pass, Check}

module _ (P : Platform) (L : Libraries P) (f : Flags) where
  open P use {World}

  unfoldable pub test_falcon_forgery_resistance : Exec World (SecurityTestResult P)
  test_falcon_forgery_resistance = do
    start ← call P.perf_counter
    kp ← falcon_keygen P L f none
    let message = codes "authentic sensor data: temperature=25.3C"
    valid_sig ← falcon_sign P L f message kp.private_key
    forged_sig ← call (P.urandom (length valid_sig))
    forged_result ← lift (falcon_verify P L f message forged_sig kp.public_key)
    let wrong_message = codes "tampered sensor data: temperature=99.9C"
    cross_result ← lift (falcon_verify P L f wrong_message valid_sig kp.public_key)
    wrong_kp ← falcon_keygen P L f none
    wrong_pk_result ← lift (falcon_verify P L f message valid_sig wrong_kp.public_key)
    conclude P (codes "falcon_forgery_resistance") (codes "signature_forgery")
        (codes "Falcon-512 rejects forged, cross-message, and wrong-PK signatures")
        (not forged_result && not cross_result && not wrong_pk_result)
        (details (codes ", ") (
          (codes "Random sig rejected", not forged_result)
          ∷ (codes "Cross-message rejected", not cross_result)
          ∷ (codes "Wrong PK rejected", not wrong_pk_result)
          ∷ []))
        start

  unfoldable pub test_key_rotation : Exec World (SecurityTestResult P)
  test_key_rotation = do
    start ← call P.perf_counter
    kp1 ← falcon_keygen P L f none
    kp2 ← falcon_keygen P L f none
    let message = codes "post-rotation data"
    sig2 ← falcon_sign P L f message kp2.private_key
    new_key_valid ← lift (falcon_verify P L f message sig2 kp2.public_key)
    old_key_valid ← lift (falcon_verify P L f message sig2 kp1.public_key)
    sig1 ← falcon_sign P L f message kp1.private_key
    old_sig_with_old_key ← lift (falcon_verify P L f message sig1 kp1.public_key)
    cross_valid ← lift (falcon_verify P L f message sig2 kp1.public_key)
    conclude P (codes "key_rotation") (codes "key_compromise")
        (codes "Rotated keys are cryptographically independent from old keys")
        (new_key_valid && not old_key_valid && old_sig_with_old_key && not cross_valid)
        (details (codes ", ") (
          (codes "New key verifies", new_key_valid)
          ∷ (codes "Old key rejects new sig", not old_key_valid)
          ∷ (codes "Old key still works", old_sig_with_old_key)
          ∷ (codes "No cross-verification", not cross_valid)
          ∷ []))
        start

  unfoldable pub test_formal_security_properties : Exec World (SecurityTestResult P)
  test_formal_security_properties = do
    start ← call P.perf_counter
    kp ← falcon_keygen P L f none
    let msg = codes "formal-security-test"
    sig ← falcon_sign P L f msg kp.private_key
    verify_ok ← lift (falcon_verify P L f msg sig kp.public_key)
    wrong_verify ← lift (falcon_verify P L f (codes "wrong message") sig kp.public_key)
    let checks : List Check =
        (
          codes "PK size = 897 bytes (NIST spec)",
          length kp.public_key == falcon_512_public_key_size,
        )
        ∷ (
          codes "Sig size ≤ 752 bytes (NIST spec)",
          ltb 0 (length sig) && leb (length sig) falcon_512_signature_size_max,
        )
        ∷ (codes "Config matches NIST FIPS 205 PK size", falcon_512_public_key_size == 897)
        ∷ (codes "Config matches NIST FIPS 205 sig max", falcon_512_signature_size_max == 752)
        ∷ (codes "Signature verifies correctly", verify_ok)
        ∷ (codes "Wrong message rejected", not wrong_verify)
        ∷ []
    conclude P (codes "formal_security_properties") (codes "formal_analysis")
        (codes "Falcon-512 implementation matches NIST FIPS 205 specification (Level 1 security)")
        (all_pass checks)
        (details (codes "; ") checks
          ++ codes
              "; EU-CMA security: 2^(-128) (NIST Level 1); ECDSA Shor vulnerability: O(n^3) on quantum computer")
        start

-- Whether a verification raised, by which `cross_passed` and `random_passed` are set.
abbrev pub rejects : Result (Unit {0}) → Bool
rejects (ok _) = false
rejects (raised _) = true

module _ (P : Platform) (E : Ecdsa P) where
  open P use {World}

  unfoldable pub test_ecdsa_forgery_resistance : Exec World (SecurityTestResult P)
  test_ecdsa_forgery_resistance = do
    start ← call P.perf_counter
    priv ← call E.generate
    let pub_ = E.public_key priv
    let message = codes "authentic ECDSA data"
    valid_sig ← call (E.sign priv message)
    let cross_passed = rejects (E.verify pub_ valid_sig (codes "tampered ECDSA data"))
    random ← call (P.urandom 64)
    let random_passed = rejects (E.verify pub_ random message)
    conclude P (codes "ecdsa_forgery_resistance") (codes "signature_forgery")
        (codes "ECDSA rejects forged and cross-message signatures") (cross_passed && random_passed)
        (details (codes ", ") (
          (codes "Cross-message rejected", cross_passed)
          ∷ (codes "Random sig rejected", random_passed)
          ∷ []))
        start
