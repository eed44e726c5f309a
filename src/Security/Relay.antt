-- ===== src/Security/Relay.antt =====
-- The tests of security/attack_simulation.py on what a gateway refuses.
use post_quantum_iot_auth.Prelude.{
  ℕ, zero, suc, ◌-◌, ◌/◌, Bool, true, not, ◌&&◌, List, [], ◌∷◌, ◌++◌, Bytes, Text, codes, length,
  take, starts_with, if◌then◌else◌,
}
use post_quantum_iot_auth.Python.{Exec, call, on_second, ◌>>=◌}
use post_quantum_iot_auth.Platform.{Platform}
use post_quantum_iot_auth.Config.{falcon_512_signature_size_max}
use post_quantum_iot_auth.Falcon.{Flags}
use post_quantum_iot_auth.Falcon.Crypto.{Libraries}
use post_quantum_iot_auth.Device.{IotDevice, new_device, generate_sensor_data, sign_data}
use post_quantum_iot_auth.Gateway.{Gateway, GatewayResult, new_gateway, relay_data}
use post_quantum_iot_auth.Security.{SecurityTestResult, Check, conclude, details, all_pass}

-- `b in s`, and `s.replace(old, new)` from the left; `skip` bytes belong to the last replacement.
abbrev pub occurs_in : Bytes → Bytes → Bool
occurs_in b [] = starts_with b []
occurs_in b (x ∷ xs) = let rest = occurs_in b xs in if starts_with b (x ∷ xs) then true else rest

abbrev pub replace_from : Bytes → Bytes → ℕ → Bytes → Bytes
replace_from old new skip [] = []
replace_from old new (suc skip) (x ∷ xs) = replace_from old new skip xs
replace_from old new zero (x ∷ xs) =
    let hit = starts_with old (x ∷ xs) in
    let rest = replace_from old new (if hit then length old - 1 else 0) xs in
    if hit then new ++ rest else x ∷ rest

module _ (P : Platform) (L : Libraries P) (f : Flags) where
  open P use {Float, World}

  -- `gateway.relay_data(…)` for a device, on a local gateway
  abbrev pub deliver : IotDevice → Bytes → Bytes → Exec (Gateway P × World) (GatewayResult P)
  deliver device payload sig = relay_data P L f device.did device.keypair.public_key payload sig

  -- a test with its own gateway, which is gone after it
  abbrev pub with_new_gateway : {A : Type 0} → Text → Exec (Gateway P × World) A → Exec World A
  with_new_gateway name m w = let (r, (g, w')) = m (new_gateway P name, w) in (r, w')

  abbrev pub reading : IotDevice → Exec (Gateway P × World) Bytes
  reading device = on_second (call (generate_sensor_data P device 256))

  unfoldable pub test_malicious_relay_rejection : Exec World (SecurityTestResult P)
  test_malicious_relay_rejection = do
    start ← call P.perf_counter
    device ← new_device P L f (codes "security-test-device")
    with_new_gateway (codes "security-gw") (do
      payload ← reading device
      valid_sig ← on_second (sign_data P L f device payload)
      valid_result ← deliver device payload valid_sig
      forged_sig ← on_second (call (P.urandom (length valid_sig)))
      forged_result ← deliver device payload forged_sig
      other_payload ← reading device
      cross_result ← deliver device other_payload valid_sig
      on_second (
          conclude P (codes "malicious_relay_rejection") (codes "malicious_relay")
            (codes "Gateway rejects invalid signatures regardless of relay claims")
            (valid_result.verified && not forged_result.verified && not cross_result.verified)
            (details (codes ", ") (
              (codes "Valid sig accepted", valid_result.verified)
              ∷ (codes "Forged sig rejected", not forged_result.verified)
              ∷ (codes "Cross-payload rejected", not cross_result.verified)
              ∷ []))
            start))

  -- the end of the test on short signatures, from the two answers of the gateway
  abbrev pub judge_short :
      Float → GatewayResult P → GatewayResult P → Exec (Gateway P × World) (SecurityTestResult P)
  judge_short start empty_result truncated_result = on_second (
      conclude P (codes "empty_signature_rejection") (codes "malicious_relay")
        (codes "Empty and truncated signatures are rejected")
        (not empty_result.verified && not truncated_result.verified)
        (details (codes ", ") (
          (codes "Empty sig rejected", not empty_result.verified)
          ∷ (codes "Truncated sig rejected", not truncated_result.verified)
          ∷ []))
        start)

  -- the test on short signatures, from the device on
  abbrev pub short_signatures : Float → IotDevice → Exec (Gateway P × World) (SecurityTestResult P)
  short_signatures start device = do
    payload ← reading device
    empty_result ← deliver device payload []
    valid_sig ← on_second (sign_data P L f device payload)
    truncated_result ← deliver device payload (take (length valid_sig / 2) valid_sig)
    judge_short start empty_result truncated_result

  unfoldable pub test_empty_signature_rejection : Exec World (SecurityTestResult P)
  test_empty_signature_rejection = do
    start ← call P.perf_counter
    device ← new_device P L f (codes "empty-sig-test")
    with_new_gateway (codes "security-gw-2") (short_signatures start device)

  -- `payload.replace(…) if b"device=" in payload else payload + b"hacked"`
  abbrev pub hacked : Bytes → Bytes
  hacked payload =
      if occurs_in (codes "device=") payload
      then replace_from (codes "device=") (codes "hacked=") 0 payload
      else payload ++ codes "hacked"

  unfoldable pub test_relay_trust_model : Exec World (SecurityTestResult P)
  test_relay_trust_model = do
    start ← call P.perf_counter
    device ← new_device P L f (codes "trust-model-device")
    with_new_gateway (codes "trust-gw") (do
      payload ← reading device
      fake_sig ← on_second (call (P.urandom falcon_512_signature_size_max))
      fake_result ← deliver device payload fake_sig
      real_sig ← on_second (sign_data P L f device payload)
      modified_result ← deliver device (hacked payload) real_sig
      valid_result ← deliver device payload real_sig
      other_device ← on_second (new_device P L f (codes "other-device"))
      other_sig ← on_second (sign_data P L f other_device payload)
      impersonate_result ← deliver device payload other_sig
      let checks : List Check =
          (codes "Relay cannot forge data", not fake_result.verified)
          ∷ (codes "Relay cannot modify payload", not modified_result.verified)
          ∷ (codes "Valid device signature accepted", valid_result.verified)
          ∷ (codes "Relay cannot impersonate device", not impersonate_result.verified)
          ∷ []
      on_second (
          conclude P (codes "relay_trust_model") (codes "trust_model")
            (codes "Relay trust model: trusted for availability, not for integrity")
            (all_pass checks) (details (codes "; ") checks) start))
