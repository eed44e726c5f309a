-- ===== src/Security/Outcomes.antt =====
-- What the tests of security/attack_simulation.py find in the simulation backend.
use post_quantum_iot_auth.Prelude.{
  ℕ, zero, suc, ◌≡◌, refl, ap, Bool, true, false, Option, none, some, List, [], ◌∷◌, arith, Bytes,
  Text, codes, length, take, take-all, ◌/◌,
}
use post_quantum_iot_auth.Python.{Error, Result, ok, Exec, on_second, ◌>>=◌}
use post_quantum_iot_auth.Python.Loops.{
  Returns, Returns-bind, Returns-ok, Returns-run, Returns-weaken, Returns_value, Returns_move,
}
use post_quantum_iot_auth.Platform.{Platform, IsDocumented}
use post_quantum_iot_auth.Dict
use post_quantum_iot_auth.Dict.{lookup-empty, lookup-insert, lookup-insert_self, lookup-erase}
use post_quantum_iot_auth.Falcon.{
  Flags, simulation, get_backend, falcon_keygen, falcon_verify, falcon_sign,
}
use post_quantum_iot_auth.Falcon.Crypto.{Libraries, KeyPair, IsEd25519}
use post_quantum_iot_auth.Falcon.Simulation.{simulation_verify}
use post_quantum_iot_auth.Falcon.RoundTrip.{
  Carries, simulation_keygen-Carries, simulation_verify-sign, simulation_verify-take,
}
use post_quantum_iot_auth.Did.{
  Registry, hash_did, generate_did, did_to_bytes32, create_did_document, clear_registry,
  unregister_did, verify_did_document,
}
use post_quantum_iot_auth.Device.{IotDevice, new_device, generate_sensor_data, sign_data}
use post_quantum_iot_auth.Gateway.{Gateway, GatewayResult, new_gateway}
use post_quantum_iot_auth.Runner.Relayed.{IsSimulated}
use post_quantum_iot_auth.Runner.Rounds.{relay_data-ok}
use post_quantum_iot_auth.Runner.Repeated.{new_device-IsSimulated}
use post_quantum_iot_auth.Security.{SecurityTestResult}
use post_quantum_iot_auth.Security.Identity.{
  on_first, report_deactivated, deactivate, test_did_deactivation,
}
use post_quantum_iot_auth.Security.Relay.{
  deliver, judge_short, with_new_gateway, short_signatures, test_empty_signature_rejection,
}
use post_quantum_iot_auth.Ecdsa.{Ecdsa}
use post_quantum_iot_auth.Security.Suite.{Shared, caught, run_all_security_tests, run_tests}

module _ (P : Platform) (L : Libraries P) (f : Flags) where
  module _ (doc : IsDocumented P) (ed : IsEd25519 P L) (sim : get_backend f ≡ simulation) where
    -- A signature that is cut in half still verifies.
    half_verifies :
        (k : L.PrivateKey) (keys : KeyPair) (m : Bytes) (w : P.World)
        → Carries P L k keys
        → (s : Bytes) × ((falcon_sign P L f m keys.private_key w).0 ≡ ok s)
          × (falcon_verify P L f m (take (length s / 2) s) keys.public_key ≡ ok true)
    unfolding falcon_sign falcon_verify get_backend
    half_verifies k keys m w c =
        let (s, signed, size, good) = simulation_verify-sign P L doc ed k keys m c in
        let cut =
          simulation_verify-take P L m s keys.public_key (length s / 2) 897 (omega (arith, size))
            (omega arith) in
        let whole = take-all 897 keys.public_key c.public_size in
        (s, ground (arith, sim, signed), ground (arith, sim, cut, whole, good))

    judged : (m s key : Bytes) → (b : Bool) × (falcon_verify P L f m s key ≡ ok b)
    unfolding falcon_verify get_backend
    judged m s key = (simulation_verify P L m s key, ground (arith, sim))

    short_signatures-fails :
        (start : P.Float) (d : IotDevice) (g : Gateway P) (w : P.World)
        → IsSimulated P L f d
        → Returns (short_signatures P L f start d (g, w)) (λ r _. r.passed ≡ false)
    unfolding sign_data
    short_signatures-fails start d g w (k, c) =
        let key = d.keypair.public_key in
        let (payload, w₁) = generate_sensor_data P d 256 w in
        let (b, told) = judged payload [] key in
        let (first, returned, _) = relay_data-ok P L f d.did key payload [] b g w₁ told in
        let s₁ = (deliver P L f d payload [] (g, w₁)).1 in
        let (sig, signed, half) = half_verifies k d.keypair payload s₁.1 c in
        let w₂ = (sign_data P L f d payload s₁.1).1 in
        let cut = deliver P L f d payload (take (length sig / 2) sig) in
        let (second, returned₂, verified) =
          relay_data-ok P L f d.did key payload (take (length sig / 2) sig) true s₁.0 w₂ half in
        let Q = λ (r : SecurityTestResult P) (_ : Gateway P × P.World). r.passed ≡ false in
        let after_cut = judge_short P L f start first in
        let after_sig : Bytes → Exec (Gateway P × P.World) (SecurityTestResult P) =
          λ s. deliver P L f d payload (take (length s / 2) s) >>= after_cut in
        let after_empty : GatewayResult P → Exec (Gateway P × P.World) (SecurityTestResult P) = λ r.
          on_second (sign_data P L f d payload) >>= λ s.
          deliver P L f d payload (take (length s / 2) s) >>= judge_short P L f start r in
        Returns-ok (deliver P L f d payload []) after_empty (g, w₁) Q returned
          (Returns-ok (on_second (sign_data P L f d payload)) after_sig s₁ Q signed
            (Returns-ok cut after_cut (s₁.0, w₂) Q returned₂ (ground (arith, verified))))

    -- In the simulation backend the test on short signatures returns, and it finds that they are not
    -- rejected.
    pub test_empty_signature_rejection_fails :
        (w : P.World)
        → (r : SecurityTestResult P) × ((test_empty_signature_rejection P L f w).0 ≡ ok r)
          × (r.passed ≡ false)
    unfolding test_empty_signature_rejection
    test_empty_signature_rejection_fails w =
        let (start, w₁) = P.perf_counter w in
        let Q = λ (r : SecurityTestResult P) (_ : P.World). r.passed ≡ false in
        let name = codes "security-gw-2" in
        let make = new_device P L f (codes "empty-sig-test") in
        let rest =
          λ (d : IotDevice). with_new_gateway P L f name (short_signatures P L f start d) in
        Returns_value (test_empty_signature_rejection P L f w).0
          (test_empty_signature_rejection P L f w).1 Q
          (Returns-bind make rest w₁ Q (
            Returns-weaken (make w₁).0 (make w₁).1 (λ d _. IsSimulated P L f d) _
              (λ d v carries.
                let out = short_signatures P L f start d (new_gateway P name, v) in
                Returns_move out.0 out.1 out.1.1 (λ r. r.passed ≡ false)
                  (short_signatures-fails start d (new_gateway P name) v carries))
              (new_device-IsSimulated P L f doc ed sim (codes "empty-sig-test") w₁)))

  unregister_did-insert :
      (did : Text) (r : Registry)
      → let d = Dict.insert (hash_did P did) did r in
        unregister_did P did d ≡ (ok tt, Dict.erase (hash_did P did) d)
  unfolding unregister_did
  unregister_did-insert did r = ground (arith, lookup-insert_self (hash_did P did) did r)

  deactivate_passes :
      (start : P.Float) (keys : KeyPair) (w : P.World)
      → Returns
          (deactivate P L f start keys (Dict.empty, w))
          (λ result s. (result.passed ≡ true) × ((b : Bytes) → Dict.lookup b s.0 ≡ none))
  unfolding did_to_bytes32 create_did_document verify_did_document unregister_did
  deactivate_passes start keys w =
      let did = (generate_did P none none w).0 in
      let h = hash_did P did in
      let d = Dict.insert h did Dict.empty in
      let (doc, w') = create_did_document P did keys.public_key (generate_did P none none w).1 in
      Returns-run (on_first (unregister_did P did))
        (λ _. report_deactivated P L f start (record doc { active = false })) (d, w') _
        (ap (λ (o : Result (Unit {0}) × Registry). (o.0, (o.1, w')))
          (unregister_did-insert did Dict.empty))
        (
          ground arith,
          λ b. ground (
            arith,
            lookup-erase h b d,
            lookup-insert h b did Dict.empty,
            lookup-empty {V = Text} b,
          ),
        )

  -- Where key generation returns, the test on deactivation passes from any registry and leaves one
  -- without entries.
  pub test_did_deactivation_passes :
      (r : Registry) (w : P.World)
      → ((v : P.World) → (keys : KeyPair) × ((falcon_keygen P L f none v).0 ≡ ok keys))
      → Returns
          (test_did_deactivation P L f (r, w))
          (λ result s. (result.passed ≡ true) × ((b : Bytes) → Dict.lookup b s.0 ≡ none))
  unfolding test_did_deactivation clear_registry
  test_did_deactivation_passes r w made =
      let (start, w₁) = P.perf_counter w in
      let (keys, returned) = made w₁ in
      let w₂ = (falcon_keygen P L f none w₁).1 in
      Returns-ok (on_second (falcon_keygen P L f none)) (deactivate P L f start)
        (clear_registry r, w₁) _ returned (deactivate_passes start keys w₂)

  -- whether the result with a number has passed, if there is one
  abbrev pub verdict : ℕ → List (SecurityTestResult P) → Option Bool
  verdict n [] = none
  verdict zero (r ∷ rs) = some r.passed
  verdict (suc n) (r ∷ rs) = verdict n rs

  caught_lem :
      (show_error : Error → Text) (name : Text) (b : Bool) {o : Result (SecurityTestResult P)}
      {r : SecurityTestResult P}
      → o ≡ ok r
      → r.passed ≡ b
      → (caught P show_error name o).passed ≡ b
  caught_lem show_error name b e h = rw e h

  module _ (doc : IsDocumented P) (ed : IsEd25519 P L) (E : Ecdsa P) (keccak : Bytes → Bytes) where
    pub keygen_returns :
        get_backend f ≡ simulation
        → (w : P.World) → (keys : KeyPair) × ((falcon_keygen P L f none w).0 ≡ ok keys)
    unfolding falcon_keygen get_backend
    keygen_returns sim w =
        let (_, keys, made, _) = simulation_keygen-Carries P L doc ed none w in
        (keys, ground (arith, made, sim))

    deactivation_verdict :
        (show_error : Error → Text) (name : Text) (s : Shared P)
        → get_backend f ≡ simulation
        → (caught P show_error name (test_did_deactivation P L f s).0).passed ≡ true
    deactivation_verdict show_error name (r, w) sim =
        let out = test_did_deactivation P L f (r, w) in
        let (result, returned, (passed, _)) =
          Returns_value out.0 out.1 _ (test_did_deactivation_passes r w (keygen_returns sim)) in
        caught_lem show_error name true returned passed

    short_verdict :
        (show_error : Error → Text) (name : Text) (w : P.World)
        → get_backend f ≡ simulation
        → (caught P show_error name (test_empty_signature_rejection P L f w).0).passed ≡ false
    short_verdict show_error name w sim =
        let (result, returned, failed) = test_empty_signature_rejection_fails doc ed sim w in
        caught_lem show_error name false returned failed

    -- In the simulation backend, with hashes of 32 bytes, `urandom` and Ed25519 as documented, the
    -- suite gives ten results whatever its tests raise, on any registry; the fifth, on the
    -- deactivation of a DID, has passed, and the eighth, on short signatures, has failed.
    pub run_all_security_tests_lem :
        (show_error : Error → Text) (s : Shared P)
        → get_backend f ≡ simulation
        → let results = (run_all_security_tests P L f E keccak show_error s).0 in
          (length results ≡ 10) × (verdict 4 results ≡ some true) × (verdict 7 results ≡ some false)
    unfolding run_all_security_tests run_tests
    run_all_security_tests_lem show_error s sim = (
      refl,
      ap some (deactivation_verdict show_error _ _ sim),
      ap some (short_verdict show_error _ _ sim),
    )
