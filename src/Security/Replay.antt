-- ===== src/Security/Replay.antt =====
-- The tests of security/attack_simulation.py on replayed transactions.
use post_quantum_iot_auth.Prelude.{not, ◌&&◌, none, [], ◌∷◌, Bytes, codes}
use post_quantum_iot_auth.Python.{Exec, call, ◌>>=◌}
use post_quantum_iot_auth.Platform.{Platform}
use post_quantum_iot_auth.Falcon.{Flags, falcon_keygen, falcon_sign}
use post_quantum_iot_auth.Falcon.Crypto.{Libraries}
use post_quantum_iot_auth.Security.{
  SecurityTestResult, Replayable, check_transaction, check_timestamp, conclude, details,
}

module _ (P : Platform) (L : Libraries P) (f : Flags) (keccak : Bytes → Bytes) where
  open P use {World}

  abbrev transaction : Bytes → Bytes → Replayable
  transaction msg sig = record {
    data_hash = keccak msg;
    did_hash = keccak (codes "did:falconiot:test-device");
    signature = sig;
  }

  unfoldable pub test_replay_resistance : Exec World (SecurityTestResult P)
  test_replay_resistance = do
    start ← call P.perf_counter
    kp ← falcon_keygen P L f none
    let msg1 = codes "sensor-reading-001"
    let msg2 = codes "sensor-reading-002"
    sig1 ← falcon_sign P L f msg1 kp.private_key
    sig2 ← falcon_sign P L f msg2 kp.private_key
    let (tx1_ok, used1) = check_transaction keccak (transaction msg1 sig1) []
    let (tx2_ok, used2) = check_transaction keccak (transaction msg2 sig2) used1
    let (replay_ok, used3) = check_transaction keccak (transaction msg1 sig1) used2
    let msg3 = codes "sensor-reading-003"
    sig3 ← falcon_sign P L f msg3 kp.private_key
    let (new_tx_ok, _) = check_transaction keccak (transaction msg3 sig3) used3
    conclude P (codes "replay_resistance") (codes "replay_attack")
        (codes
          "Commitment-based replay detection (mirrors MetaTxRelay.sol) rejects duplicate transactions")
        (tx1_ok && tx2_ok && not replay_ok && new_tx_ok)
        (details (codes ", ") (
          (codes "Unique TXs accepted", tx1_ok && tx2_ok)
          ∷ (codes "Replay rejected", not replay_ok)
          ∷ (codes "New unique TX accepted", new_tx_ok)
          ∷ []))
        start

module _ (P : Platform) where
  open P use {World}

  unfoldable pub test_timestamp_based_replay : Exec World (SecurityTestResult P)
  test_timestamp_based_replay = do
    start ← call P.perf_counter
    current_time ← call P.time
    let fresh = check_timestamp P current_time (P.sub current_time (P.float 10))
    let old = check_timestamp P current_time (P.sub current_time (P.float 360))
    let future = check_timestamp P current_time (P.add current_time (P.float 100))
    let boundary = check_timestamp P current_time (P.sub current_time (P.float 299))
    conclude P (codes "timestamp_replay_resistance") (codes "replay_attack")
        (codes "Timestamp-based validation rejects stale and future-dated transactions")
        (fresh && not old && not future && boundary)
        (details (codes ", ") (
          (codes "Fresh accepted", fresh)
          ∷ (codes "Old rejected", not old)
          ∷ (codes "Future rejected", not future)
          ∷ (codes "Boundary accepted", boundary)
          ∷ []))
        start
