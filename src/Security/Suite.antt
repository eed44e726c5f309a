-- ===== src/Security/Suite.antt =====
-- `run_all_security_tests` of security/attack_simulation.py.
use post_quantum_iot_auth.Prelude.{false, List, [], ◌∷◌, ◌++◌, Bytes, Text, codes}
use post_quantum_iot_auth.Python.{Error, Result, ok, raised, Exec, on_second}
use post_quantum_iot_auth.Platform.{Platform}
use post_quantum_iot_auth.Did.{Registry}
use post_quantum_iot_auth.Falcon.{Flags}
use post_quantum_iot_auth.Falcon.Crypto.{Libraries}
use post_quantum_iot_auth.Ecdsa.{Ecdsa}
use post_quantum_iot_auth.Security.{SecurityTestResult}
use post_quantum_iot_auth.Security.Forgery.{
  test_falcon_forgery_resistance, test_ecdsa_forgery_resistance, test_key_rotation,
  test_formal_security_properties,
}
use post_quantum_iot_auth.Security.Replay.{test_replay_resistance, test_timestamp_based_replay}
use post_quantum_iot_auth.Security.Identity.{test_did_deactivation}
use post_quantum_iot_auth.Security.Relay.{
  test_malicious_relay_rejection, test_empty_signature_rejection, test_relay_trust_model,
}

module _ (P : Platform) where
  open P use {World}

  -- What the tests share: the registry of DIDs and the world.
  abbrev pub Shared : Type 0
  Shared = Registry × World

  -- A test with the name of its function.
  abbrev pub Test : Type 0
  Test = Text × Exec Shared (SecurityTestResult P)

  -- What is recorded of a test that raised; `str(e)` is a parameter.
  unfoldable pub error_result : (Error → Text) → Text → Error → SecurityTestResult P
  error_result show_error name e = record {
    test_name = name;
    category = codes "error";
    passed = false;
    description = codes "Test raised exception: " ++ show_error e;
    details = show_error e;
    execution_time_ms = P.float 0;
  }

  abbrev pub caught : (Error → Text) → Text → Result (SecurityTestResult P) → SecurityTestResult P
  caught show_error name (ok result) = result
  caught show_error name (raised e) = error_result show_error name e

  -- The loop over `tests`.
  unfoldable pub run_tests :
      (Error → Text) → List Test → Shared → List (SecurityTestResult P) × Shared
  run_tests show_error [] s = ([], s)
  run_tests show_error ((name, test_func) ∷ tests) s =
      let (result, s₁) = test_func s in
      let (results, s₂) = run_tests show_error tests s₁ in
      (caught show_error name result ∷ results, s₂)

  module _ (L : Libraries P) (f : Flags) (E : Ecdsa P) (keccak : Bytes → Bytes) where
    abbrev pub tests : List Test
    tests =
        (codes "test_falcon_forgery_resistance", on_second (test_falcon_forgery_resistance P L f))
        ∷ (codes "test_ecdsa_forgery_resistance", on_second (test_ecdsa_forgery_resistance P E))
        ∷ (codes "test_replay_resistance", on_second (test_replay_resistance P L f keccak))
        ∷ (codes "test_timestamp_based_replay", on_second (test_timestamp_based_replay P))
        ∷ (codes "test_did_deactivation", test_did_deactivation P L f)
        ∷ (codes "test_key_rotation", on_second (test_key_rotation P L f))
        ∷ (codes "test_malicious_relay_rejection", on_second (test_malicious_relay_rejection P L f))
        ∷ (codes "test_empty_signature_rejection", on_second (test_empty_signature_rejection P L f))
        ∷ (
          codes "test_formal_security_properties",
          on_second (test_formal_security_properties P L f),
        )
        ∷ (codes "test_relay_trust_model", on_second (test_relay_trust_model P L f))
        ∷ []

    unfoldable pub run_all_security_tests :
        (Error → Text) → Shared → List (SecurityTestResult P) × Shared
    run_all_security_tests show_error s = run_tests show_error tests s
