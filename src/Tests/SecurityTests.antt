-- ===== src/Tests/SecurityTests.antt =====
-- The theorems on the security tests, at concrete inputs.
use post_quantum_iot_auth.Prelude.{
  ℕ, ◌≡◌, refl, true, false, not, none, some, List, [], ◌∷◌, Bytes, codes, length, replicate,
}
use post_quantum_iot_auth.Python.{ok}
use post_quantum_iot_auth.Python.Loops.{Returns}
use post_quantum_iot_auth.Dict
use post_quantum_iot_auth.Security.{
  SecurityTestResult, Replayable, check_transaction, compute_commitment,
}
use post_quantum_iot_auth.Security.Identity.{test_did_deactivation}
use post_quantum_iot_auth.Security.Relay.{test_empty_signature_rejection}
use post_quantum_iot_auth.Security.Suite.{run_all_security_tests}
use post_quantum_iot_auth.Security.Commitments.{
  IsWide, submitted, after, Avoids, check_transaction-submitted,
}
use post_quantum_iot_auth.Security.Outcomes.{
  test_empty_signature_rejection_fails, test_did_deactivation_passes, verdict,
  run_all_security_tests_lem, keygen_returns,
}
use post_quantum_iot_auth.Tests.Toy.{toy, toy-IsDocumented, toy_libraries, toy-IsEd25519, simulated}
use post_quantum_iot_auth.Tests.ToyEcdsa.{toy_ecdsa}
use post_quantum_iot_auth.Tests.FalconTests.{get_simulation}

-- a digest that keeps what it is given
abbrev keep : Bytes → Bytes
keep b = b

abbrev hashed : ℕ → Bytes → Replayable
hashed n sig = record {
  data_hash = n ∷ replicate 31 0;
  did_hash = 9 ∷ replicate 31 0;
  signature = sig;
}

hashed-IsWide : (n : ℕ) (sig : Bytes) → IsWide (hashed n sig)
hashed-IsWide n sig = record { wide_data = refl; wide_did = refl }

hashed-Avoids : (x : Replayable) (n : ℕ) (sig : Bytes) → Avoids keep x (hashed n sig)
unfolding compute_commitment
hashed-Avoids x n sig = record { wide = hashed-IsWide n sig; no_collision = λ e. e }

-- the second of three submissions comes again
abbrev three : List Replayable
three = hashed 1 (1 ∷ 2 ∷ []) ∷ hashed 2 (3 ∷ []) ∷ hashed 3 [] ∷ []

check_transaction-submitted_example :
    ((check_transaction keep (hashed 2 (3 ∷ [])) (after keep three [])).0
      ≡ not (submitted (hashed 2 (3 ∷ [])) three))
    × ((check_transaction keep
          (hashed 2 (3 ∷ []))
          (check_transaction keep (hashed 2 (3 ∷ [])) (after keep three [])).1).0
        ≡ false)
check_transaction-submitted_example =
    check_transaction-submitted keep (hashed 2 (3 ∷ [])) three (hashed-IsWide 2 (3 ∷ []))
      (hashed-Avoids _ 1 (1 ∷ 2 ∷ []), (hashed-Avoids _ 2 (3 ∷ []), (hashed-Avoids _ 3 [], tt)))

test_empty_signature_rejection_fails_example :
    (r : SecurityTestResult toy) × ((test_empty_signature_rejection toy toy_libraries simulated 5).0
      ≡ ok r)
    × (r.passed ≡ false)
test_empty_signature_rejection_fails_example =
    test_empty_signature_rejection_fails toy toy_libraries simulated toy-IsDocumented toy-IsEd25519
      get_simulation 5

test_did_deactivation_passes_example :
    Returns
      (test_did_deactivation toy toy_libraries simulated (Dict.empty, 5))
      (λ result s. (result.passed ≡ true) × ((b : Bytes) → Dict.lookup b s.0 ≡ none))
test_did_deactivation_passes_example =
    test_did_deactivation_passes toy toy_libraries simulated Dict.empty 5 (
      keygen_returns toy toy_libraries simulated toy-IsDocumented toy-IsEd25519 toy_ecdsa keep
        get_simulation)

abbrev results_of_suite : List (SecurityTestResult toy)
results_of_suite =
    (run_all_security_tests toy toy_libraries simulated toy_ecdsa keep (λ e. codes "error")
      (Dict.empty, 5)).0

run_all_security_tests_lem_example :
    (length results_of_suite ≡ 10)
    × (verdict toy toy_libraries simulated 4 results_of_suite ≡ some true)
    × (verdict toy toy_libraries simulated 7 results_of_suite ≡ some false)
run_all_security_tests_lem_example =
    run_all_security_tests_lem toy toy_libraries simulated toy-IsDocumented toy-IsEd25519 toy_ecdsa
      keep (λ e. codes "error") (Dict.empty, 5) get_simulation
