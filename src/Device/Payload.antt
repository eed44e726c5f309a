-- ===== src/Device/Payload.antt =====
-- The readings of IoTDevice in relay_system/iot_client.py.
use post_quantum_iot_auth.Prelude.{
  ℕ, ◌-◌, ◌≡◌, arith, take, length, length-append, length-take, leb, min, take-take, take-append,
  take-all, take-of_le, ◌∙◌, sym, refl, Bool-cases, inl, inr,
}
use post_quantum_iot_auth.Platform.{Platform, IsDocumented}
use post_quantum_iot_auth.Device.{IotDevice, sensor_header, generate_sensor_data}

module _ (P : Platform) (doc : IsDocumented P) where
  -- With `urandom(n)` of n bytes a reading has exactly the size that is asked for, whatever the device's name, and it begins with
  -- the header, as far as that fits.
  pub length-generate_sensor_data :
      (d : IotDevice) (size : ℕ) (w : P.World)
      → let payload = (generate_sensor_data P d size w).0 in
        let header = sensor_header P d (P.trunc (P.mul (P.time w).0 (P.float 1000))) in
        (length payload ≡ size) × (take (min size (length header)) payload ≡ take size header)
  unfolding generate_sensor_data
  length-generate_sensor_data d size w =
      let header = sensor_header P d (P.trunc (P.mul (P.time w).0 (P.float 1000))) in
      let padding = (P.urandom (size - length header) (P.time w).1).0 in
      let filled = doc.urandom_size (size - length header) (P.time w).1 in
      elim (Bool-cases (leb size (length header))) [
        | inl long ↦ rw long (
          ground (arith, length-take size header),
          let e : min size (length header) ≡ size = ground arith in
              rw e (take-take size size header (omega arith)),
        )
        | inr short ↦ rw short (
          ground (arith, filled, length-append header padding),
          let e : min size (length header) ≡ length header = ground arith in
              rw e (
                take-append (length header) header padding (omega arith)
                ∙ take-all (length header) header refl
                ∙ sym (take-of_le size header (ground arith))),
        )
      ]
