-- ===== src/Security/Identity.antt =====
-- The test of security/attack_simulation.py on the deactivation of a DID. It works on the registry
-- of shared/did_utils.py.
use post_quantum_iot_auth.Prelude.{true, false, not, none, [], ◌∷◌, codes, if◌then◌else◌}
use post_quantum_iot_auth.Python.{assertion_error, ok, raised, Exec, call, on_second, ◌>>=◌, ◌>>◌}
use post_quantum_iot_auth.Platform.{Platform}
use post_quantum_iot_auth.Did.{
  Registry, DidDocument, generate_did, create_did_document, verify_did_document, did_to_bytes32,
  unregister_did, clear_registry,
}
use post_quantum_iot_auth.Falcon.{Flags, falcon_keygen}
use post_quantum_iot_auth.Falcon.Crypto.{Libraries, KeyPair}
use post_quantum_iot_auth.Security.{SecurityTestResult, conclude, details}

module _ {A : Type 0} {S T : Type 0} where
  -- A call that only works on the registry, the first part of the state.
  abbrev pub on_first : Exec S A → Exec (S × T) A
  on_first m (s, t) = let (r, s') = m s in (r, (s', t))

module _ (P : Platform) (L : Libraries P) (f : Flags) where
  open P use {Float, World}

  abbrev pub assert_active : DidDocument P → Exec (Registry × World) (Unit {0})
  assert_active doc s = (if doc.active then ok tt else raised assertion_error, s)

  -- the end of the test, on the deactivated document
  abbrev pub report_deactivated :
      Float → DidDocument P → Exec (Registry × World) (SecurityTestResult P)
  report_deactivated start doc =
      let deactivated_valid = verify_did_document P doc in
      on_second (
        conclude P (codes "did_deactivation") (codes "key_compromise")
          (codes "Deactivated DIDs are correctly rejected by verify_did_document")
          (not deactivated_valid)
          (details (codes ", ") (
            (codes "DID active before", true)
            ∷ (codes "valid after deactivation", deactivated_valid)
            ∷ []))
          start)

  -- the test, from the key pair on
  abbrev pub deactivate : Float → KeyPair → Exec (Registry × World) (SecurityTestResult P)
  deactivate start kp = do
    did ← on_second (call (generate_did P none none))
    did_hash ← on_first (call (did_to_bytes32 P did))
    doc ← on_second (call (create_did_document P did kp.public_key))
    assert_active doc
    on_first (unregister_did P did)
    report_deactivated start (record doc { active = false })

  unfoldable pub test_did_deactivation : Exec (Registry × World) (SecurityTestResult P)
  test_did_deactivation = do
    start ← on_second (call P.perf_counter)
    on_first (call (λ registry. (tt, clear_registry registry)))
    kp ← on_second (falcon_keygen P L f none)
    deactivate start kp
