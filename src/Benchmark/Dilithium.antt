-- ===== src/Benchmark/Dilithium.antt =====
-- `_dilithium_keygen`, `_dilithium_sign` and `_dilithium_verify` of crypto_benchmark/benchmark.py.
use post_quantum_iot_auth.Prelude.{
  Bool, false, Option, none, some, Bytes, Text, codes, beq, if◌then◌else◌,
}
use post_quantum_iot_auth.Python.{
  key_error, value_error, Result, ok, raised, Exec, raise, catch_all,
}
use post_quantum_iot_auth.Platform.{Platform}
use post_quantum_iot_auth.Benchmark.Crypto.{MlDsa, Dilithium}

-- `oqs_names[scheme_name]`
unfoldable pub oqs_name : Text → Option Text
oqs_name scheme_name =
    if beq scheme_name (codes "Dilithium2")
    then some (codes "ML-DSA-44")
    else if beq scheme_name (codes "Dilithium3")
    then some (codes "ML-DSA-65")
    else none

module _ (P : Platform) where
  open P use {World}

  -- `try: first  except Exception: pass`, then `second`
  abbrev pub or_else : {A : Type 0} → Exec World A → Exec World A → Exec World A
  or_else first second w =
      let (r, w') = first w in elim r [ ok a ↦ (ok a, w') | raised e ↦ second w' ]

  -- A call of liboqs with its name for the scheme; a scheme without one is a `KeyError`.
  abbrev pub with_oqs : {A : Type 0} → Text → (Text → Exec World A) → Exec World A
  with_oqs scheme_name m = elim (oqs_name scheme_name) [ none ↦ raise key_error | some n ↦ m n ]

  module _ (is_linux : Bool) (D : Dilithium P) where
    -- The module of pqcrypto for the scheme.
    abbrev pub fallback : {A : Type 0} → Text → (MlDsa P → Exec World A) → Exec World A
    fallback scheme_name m =
        if beq scheme_name (codes "Dilithium2")
        then m D.ml_dsa_44
        else if beq scheme_name (codes "Dilithium3")
        then m D.ml_dsa_65
        else raise value_error

    unfoldable pub dilithium_keygen : Text → Exec World (Bytes × Bytes)
    dilithium_keygen scheme_name =
        let rest = fallback scheme_name (λ m. m.generate_keypair) in
        if is_linux then or_else (with_oqs scheme_name D.oqs_keypair) rest else rest

    unfoldable pub dilithium_sign : Text → Bytes → Bytes → Exec World Bytes
    dilithium_sign scheme_name message private_key =
        let rest = fallback scheme_name (λ m. m.sign private_key message) in
        if is_linux
        then or_else (with_oqs scheme_name (λ name. D.oqs_sign name private_key message)) rest
        else rest

    abbrev oqs_verdict : Text → Bytes → Bytes → Bytes → Result Bool
    oqs_verdict scheme_name message signature public_key = elim (oqs_name scheme_name) [
      | none ↦ raised key_error
      | some name ↦ D.oqs_verify name message signature public_key
    ]

    abbrev fallback_verdict : Text → Bytes → Bytes → Bytes → Result Bool
    fallback_verdict scheme_name message signature public_key =
        if beq scheme_name (codes "Dilithium2")
        then ok (catch_all (D.ml_dsa_44.verify public_key message signature) false)
        else if beq scheme_name (codes "Dilithium3")
        then ok (catch_all (D.ml_dsa_65.verify public_key message signature) false)
        else raised value_error

    unfoldable pub dilithium_verify : Text → Bytes → Bytes → Bytes → Result Bool
    dilithium_verify scheme_name message signature public_key =
        let rest = fallback_verdict scheme_name message signature public_key in
        if is_linux
        then elim (oqs_verdict scheme_name message signature public_key) [
          | ok b ↦ ok b
          | raised e ↦ rest
        ]
        else rest
