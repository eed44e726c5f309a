-- ===== src/Tests/RelayTests.antt =====
-- The theorems on the gateway, the relay node and the relay path, at concrete inputs.
use post_quantum_iot_auth.Prelude.{
  ℕ, ◌+◌, ◌*◌, ◌≡◌, refl, true, false, List, [], ◌∷◌, ◌++◌, map, codes, replicate,
}
use post_quantum_iot_auth.Python.{Result, ok}
use post_quantum_iot_auth.Falcon.RoundTrip.{Carries}
use post_quantum_iot_auth.Device.{IotDevice}
use post_quantum_iot_auth.Gateway.{Gateway, GatewayResult, new_gateway}
use post_quantum_iot_auth.Gateway.History
use post_quantum_iot_auth.Gateway.History.{
  Event, deliver, collect, forwarded, refused, named, forwarded-run, counts-run,
}
use post_quantum_iot_auth.Chain.{new_blockchain}
use post_quantum_iot_auth.RelayNode.{
  RelayNode, Submitted, new_relay, submit_verified_transaction, submit_zip,
}
use post_quantum_iot_auth.Runner.{RelayReport}
use post_quantum_iot_auth.Runner.Simulated.{run_relay_path}
use post_quantum_iot_auth.Runner.Comparison.{Comparison, create_and_compare}
use post_quantum_iot_auth.Runner.Compared.{IsComplete, create_and_compare_lem}
use post_quantum_iot_auth.Runner.Relayed.{IsSimulated-Signs, run_relay_path_complete}
use post_quantum_iot_auth.Tests.FalconTests.{get_simulation}
use post_quantum_iot_auth.Tests.Toy.{
  toy, toy_web3, toy-IsDocumented, toy_libraries, toy-IsEd25519, simulated,
}

-- a device with a key pair of the simulation backend
abbrev pub device : IotDevice
device = record {
  device_id = codes "s1";
  keypair = record { public_key = 5 ∷ replicate 896 0; private_key = 5 ∷ replicate 1280 0 };
  did = codes "did:falconiot:s1";
}

abbrev events : List Event
events =
    deliver (codes "did:falconiot:s1") device.keypair.public_key (codes "hi") (codes "forged")
    ∷ collect
    ∷ deliver (codes "did:falconiot:s1") device.keypair.public_key (codes "ho") []
    ∷ []

abbrev gateway : Gateway toy
gateway = new_gateway toy (codes "gw")

forwarded-run_example :
    map (named toy toy_libraries simulated) (
      (History.run toy toy_libraries simulated events (gateway, 3)).0
      ++ (History.run toy toy_libraries simulated events (gateway, 3)).1.0.batch)
    ≡ map (named toy toy_libraries simulated) gateway.batch
      ++ forwarded toy toy_libraries simulated events
forwarded-run_example = forwarded-run toy toy_libraries simulated events (gateway, 3)

abbrev relay : RelayNode toy
relay = new_relay toy (codes "relay") (new_blockchain toy 42)

abbrev submitted : Result (Submitted toy) × (RelayNode toy × ℕ)
submitted =
    submit_verified_transaction toy (codes "did:falconiot:s1") (codes "aa") (codes "sig") false true
      (relay, 3)

abbrev result : GatewayResult toy
result = record {
  device_did = codes "did:falconiot:s1";
  data_hash = codes "aa";
  verified = true;
  verify_time_ms = 1;
  gateway_id = codes "gw";
  timestamp = 2;
  payload_size = 3;
}

abbrev zipped : Result (List (Submitted toy)) × (RelayNode toy × ℕ)
zipped = submit_zip toy true (result ∷ result ∷ []) (codes "sig" ∷ []) (relay, 3)

pub carried : Carries toy toy_libraries 5 device.keypair
carried = record {
  public_size = refl;
  private_size = refl;
  private_start = refl;
  public_start = refl;
}

run_relay_path_complete_example :
    (r : RelayReport toy) × ((run_relay_path toy toy_libraries simulated 64 2 3 (device ∷ []) 7).0
      ≡ ok r)
    × (r.total_transactions + r.failed_verifications ≡ 3)
    × (r.total_gas ≡ 821563 * r.total_transactions)
run_relay_path_complete_example =
    run_relay_path_complete toy toy_libraries simulated 64 2 3 (device ∷ []) 7 (
      IsSimulated-Signs toy toy_libraries simulated toy-IsDocumented toy-IsEd25519 false device
          get_simulation (5, carried),
      tt,
    )

abbrev pub spread : List ℕ → ℕ
spread xs = 0

create_and_compare_lem_example :
    (c : Comparison toy toy_web3 toy_libraries simulated) × ((create_and_compare toy toy_web3
        toy_libraries simulated spread false 64 2 3 4 5 7).0
      ≡ ok c)
    × IsComplete toy toy_web3 toy_libraries simulated 15 (c.direct_ecdsa, c.relay_falcon)
create_and_compare_lem_example =
    create_and_compare_lem toy toy_web3 toy_libraries simulated toy-IsDocumented toy-IsEd25519
      get_simulation spread 64 2 3 4 5 7
