-- ===== src/Tests/DidTests.antt =====
-- The theorems on DIDs, at concrete inputs.
use post_quantum_iot_auth.Prelude.{
  ◌≡◌, ap, ◌≢◌, ◌↔◌, refl, true, false, beq, [], ◌∷◌, arith, Bytes, Text, codes, starts_with,
}
use post_quantum_iot_auth.Python.{ok}
use post_quantum_iot_auth.Python.Text.{encode}
use post_quantum_iot_auth.Dict
use post_quantum_iot_auth.Dict.{lookup-insert_self}
use post_quantum_iot_auth.Did.{DidDocument, verify_did_document, hash_did, bytes32_to_did}
use post_quantum_iot_auth.Did.Document.{verify_did_document_iff}
use post_quantum_iot_auth.Did.Registry.{
  convert, register, unregister, run, answer, is_registered, bytes32_to_did-run,
}
use post_quantum_iot_auth.Tests.Toy.{toy, head_or_zero}

abbrev document : DidDocument toy
document = record {
  did = codes "did:falconiot:01";
  public_key = 0 ∷ 171 ∷ 255 ∷ [];
  created_at = 5;
  active = true;
}

verify_did_document_iff_example : (verify_did_document toy document ≡ true) ↔ (
    (starts_with (codes "did:") (codes "did:falconiot:01") ≡ true)
    × (◌≢◌ {A = Bytes} (0 ∷ 171 ∷ 255 ∷ []) [])
    × (true ≡ true))
verify_did_document_iff_example = verify_did_document_iff toy document

abbrev one : Text
one = codes "did:falconiot:01"

abbrev two : Text
two = codes "did:falconiot:02"

differ : hash_did toy two ≡ hash_did toy one → two ≡ one
unfolding hash_did encode
differ h = absurd (omega (arith, ap head_or_zero h))

bytes32_to_did-run_example :
    bytes32_to_did
      (hash_did toy one)
      (run toy (register one ∷ convert two ∷ unregister two ∷ []) Dict.empty)
    ≡ (
      answer one (is_registered one (register one ∷ convert two ∷ unregister two ∷ []) false),
      run toy (register one ∷ convert two ∷ unregister two ∷ []) Dict.empty,
    )
bytes32_to_did-run_example =
    bytes32_to_did-run toy one (register one ∷ convert two ∷ unregister two ∷ [])
      (λ _. refl, (differ, (differ, tt)))

found : (bytes32_to_did (hash_did toy one) (run toy (register one ∷ []) Dict.empty)).0 ≡ ok one
unfolding is_registered beq
found = ap (λ p. p.0) (bytes32_to_did-run toy one (register one ∷ []) (λ _. refl, tt))
