-- ===== src/Tests/FalconTests.antt =====
-- The theorems on keys, signatures and readings, at concrete inputs.
use post_quantum_iot_auth.Prelude.{
  ◌≡◌, refl, true, none, [], ◌∷◌, arith, Bytes, codes, length, take, min,
}
use post_quantum_iot_auth.Python.{ok}
use post_quantum_iot_auth.Falcon.{
  simulation, get_backend, falcon_keygen, falcon_sign_message, falcon_verify_message,
}
use post_quantum_iot_auth.Falcon.Crypto.{KeyPair}
use post_quantum_iot_auth.Falcon.Simulation.{deterministic_pad}
use post_quantum_iot_auth.Falcon.Padding.{IsPadded, deterministic_pad-IsPadded}
use post_quantum_iot_auth.Falcon.Dispatch.{falcon_verify_message-sign}
use post_quantum_iot_auth.Device.{IotDevice, sensor_header, generate_sensor_data}
use post_quantum_iot_auth.Device.Payload.{length-generate_sensor_data}
use post_quantum_iot_auth.Tests.Toy.{toy, toy-IsDocumented, toy_libraries, toy-IsEd25519, simulated}

pub get_simulation : get_backend simulated ≡ simulation
unfolding get_backend
get_simulation = refl

deterministic_pad-IsPadded_example :
    IsPadded (1 ∷ 2 ∷ []) 40 (deterministic_pad toy (1 ∷ 2 ∷ []) (codes "pub_pad:") 40)
deterministic_pad-IsPadded_example =
    deterministic_pad-IsPadded toy toy-IsDocumented (1 ∷ 2 ∷ []) (codes "pub_pad:") 40 (omega arith)

falcon_verify_message-sign_example :
    (keys : KeyPair) × (s : Bytes) × ((falcon_keygen toy toy_libraries simulated none 5).0
      ≡ ok keys)
    × ((falcon_sign_message toy toy_libraries simulated (codes "hi") keys 6).0 ≡ ok s)
    × (falcon_verify_message toy toy_libraries simulated (codes "hi") s keys ≡ ok true)
    × (length s ≡ 752)
    × (length keys.public_key ≡ 897)
    × (length keys.private_key ≡ 1281)
falcon_verify_message-sign_example =
    falcon_verify_message-sign toy toy_libraries toy-IsDocumented toy-IsEd25519 simulated none
      (codes "hi") 5 6 get_simulation

abbrev pub sensor : IotDevice
sensor = record {
  device_id = codes "s1";
  keypair = record { public_key = []; private_key = [] };
  did = codes "did:falconiot:s1";
}

length-generate_sensor_data_example :
    (length (generate_sensor_data toy sensor 64 5).0 ≡ 64)
    × (take
          (min 64 (length (sensor_header toy sensor 5000)))
          (generate_sensor_data toy sensor 64 5).0
        ≡ take 64 (sensor_header toy sensor 5000))
length-generate_sensor_data_example = length-generate_sensor_data toy toy-IsDocumented sensor 64 5
