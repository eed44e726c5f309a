-- ===== src/Falcon/Simulation.antt =====
-- The simulation backend of shared/falcon_utils.py: Ed25519 with keys and signatures that are padded
-- to the sizes of Falcon-512.
use post_quantum_iot_auth.Prelude.{
  ℕ, zero, suc, ◌+◌, ◌/◌, ◌%◌, ◌^◌, Bool, true, false, Option, none, some, [], ◌∷◌, ◌++◌, ltb,
  if◌then◌else◌, Bytes, codes, take, length,
}
use post_quantum_iot_auth.Python.{
  out_of_fuel, overflow_error, Result, ok, raised, Exec, pure, lift, call, ◌>>=◌,
}
use post_quantum_iot_auth.Platform.{Platform}
use post_quantum_iot_auth.Config.{
  falcon_512_public_key_size, falcon_512_private_key_size, falcon_512_signature_size_max,
}
use post_quantum_iot_auth.Falcon.Crypto.{Libraries, KeyPair}

-- `counter.to_bytes(4, "big")`
unfoldable pub to_bytes : ℕ → Bytes
to_bytes n = (n / 2 ^ 24) ∷ (n / 2 ^ 16 % 256) ∷ (n / 2 ^ 8 % 256) ∷ (n % 256) ∷ []

module _ (P : Platform) where
  open P use {World, sha256}

  -- The `while` loop, on fuel.
  unfoldable pub pad_loop : ℕ → Bytes → ℕ → ℕ → Bytes → Result Bytes
  pad_loop zero label target counter buf = raised out_of_fuel
  pad_loop (suc fuel) label target counter buf =
      let next =
        pad_loop fuel label target (counter + 1) (buf ++ sha256 (label ++ to_bytes counter)) in
      if ltb (length buf) target
      then (if ltb counter (2 ^ 32) then next else raised overflow_error)
      else ok (take target buf)

  -- `_deterministic_pad`
  unfoldable pub deterministic_pad : Bytes → Bytes → ℕ → Result Bytes
  deterministic_pad buf label target_len = pad_loop (suc target_len) label target_len 0 buf

  module _ (L : Libraries P) where
    abbrev private_key_of : Option Bytes → Exec World L.PrivateKey
    private_key_of (some seed) =
        lift (L.from_private_bytes (sha256 (codes "falcon-sim-seed" ++ seed)))
    private_key_of none = call L.generate

    -- `_simulation_keygen`
    unfoldable pub simulation_keygen : Option Bytes → Exec World KeyPair
    simulation_keygen seed = do
      priv ← private_key_of seed
      let raw_priv = L.private_bytes_raw priv
      let raw_pub = L.public_bytes_raw (L.public_key priv)
      padded_pub ←
          lift (deterministic_pad raw_pub (codes "pub_pad:" ++ raw_pub) falcon_512_public_key_size)
      padded_priv ←
          lift
            (deterministic_pad raw_priv (codes "priv_pad:" ++ raw_priv) falcon_512_private_key_size)
      pure (record { public_key = padded_pub; private_key = padded_priv })

    abbrev sign_with : Bytes → Result L.PrivateKey → Result Bytes
    sign_with message (raised e) = raised e
    sign_with message (ok priv) =
        let raw_sig = L.sign priv message in
        deterministic_pad raw_sig (codes "sig_pad:" ++ raw_sig) falcon_512_signature_size_max

    -- `_simulation_sign`
    unfoldable pub simulation_sign : Bytes → Bytes → Result Bytes
    simulation_sign message private_key =
        sign_with message (L.from_private_bytes (take 32 private_key))

    abbrev accepted : Result (Unit {0}) → Bool
    accepted (ok _) = true
    accepted (raised _) = false

    abbrev verify_with : Bytes → Bytes → Result L.PublicKey → Bool
    verify_with message raw_sig (raised e) = false
    verify_with message raw_sig (ok key) = accepted (L.verify key raw_sig message)

    -- `_simulation_verify`
    unfoldable pub simulation_verify : Bytes → Bytes → Bytes → Bool
    simulation_verify message signature public_key =
        verify_with message (take 64 signature) (L.from_public_bytes (take 32 public_key))
