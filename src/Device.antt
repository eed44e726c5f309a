-- ===== src/Device.antt =====
-- class IoTDevice of relay_system/iot_client.py.
pub mod Payload
use post_quantum_iot_auth.Prelude.{
  ℕ, ◌-◌, Option, none, ◌++◌, if◌then◌else◌, leb, Bytes, Text, codes, take, length,
}
use post_quantum_iot_auth.Python.{Result, ok, raised, Exec, pure, call, ◌>>=◌}
use post_quantum_iot_auth.Python.Text.{encode, decimal}
use post_quantum_iot_auth.Platform.{Platform}
use post_quantum_iot_auth.Config.{falcon_512_signature_size_max}
use post_quantum_iot_auth.Did.{generate_did}
use post_quantum_iot_auth.Falcon.{Flags, falcon_keygen, falcon_sign}
use post_quantum_iot_auth.Falcon.Crypto.{Libraries, KeyPair}

pub record IotDevice : Type 0 where
  pub device_id : Text
  pub keypair : KeyPair
  pub did : Text

unfoldable pub public_key_size : IotDevice → ℕ
public_key_size d = length d.keypair.public_key

unfoldable pub signature_size : IotDevice → ℕ
signature_size d = falcon_512_signature_size_max

module _ (P : Platform) where
  open P use {World}

  -- the first bytes of a reading
  abbrev pub sensor_header : IotDevice → ℕ → Bytes
  sensor_header d timestamp =
      encode (
        codes "device=" ++ (d.device_id ++ (codes "&ts=" ++ (decimal timestamp ++ codes "&data="))))

  unfoldable pub generate_sensor_data : IotDevice → ℕ → World → Bytes × World
  generate_sensor_data d size w =
      let (now, w₁) = P.time w in
      let header = sensor_header d (P.trunc (P.mul now (P.float 1000))) in
      let (padding, w₂) = P.urandom (size - length header) w₁ in
      if leb size (length header) then (take size header, w₁) else (header ++ padding, w₂)

  module _ (L : Libraries P) (f : Flags) where
    -- `IoTDevice(device_id)`
    unfoldable pub new_device : Text → Exec World IotDevice
    new_device device_id = do
      keypair ← falcon_keygen P L f none
      did ← call (generate_did P none none)
      pure (record { device_id = device_id; keypair = keypair; did = did })

    unfoldable pub sign_data : IotDevice → Bytes → Exec World Bytes
    sign_data d payload = falcon_sign P L f payload d.keypair.private_key
