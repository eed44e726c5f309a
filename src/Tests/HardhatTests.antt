-- ===== src/Tests/HardhatTests.antt =====
-- The theorems on the Hardhat backend, at concrete inputs.
use post_quantum_iot_auth.Prelude.{ℕ, List, ◌+◌, ◌≡◌, true, none, some, [], ◌∷◌, codes, refl}
use post_quantum_iot_auth.Python.{Exec, ok}
use post_quantum_iot_auth.Dict
use post_quantum_iot_auth.Dict.{lookup-insert_self}
use post_quantum_iot_auth.Chain.{Transaction, meta_transaction}
use post_quantum_iot_auth.Hardhat.{
  HardhatBackend, MetaExtras, new_backend, State, submit_transaction, submit_meta_transaction,
  component_bytes,
}
use post_quantum_iot_auth.Hardhat.Recording.{Outcome, log, submissions-Outcome}
use post_quantum_iot_auth.Hardhat.Mining.{IsMining}
use post_quantum_iot_auth.Python.Loops.{Returns}
use post_quantum_iot_auth.Device.{IotDevice}
use post_quantum_iot_auth.HardhatRunner.{new_runner, run_gas_comparison}
use post_quantum_iot_auth.HardhatRunner.Receipts.{IsReported}
use post_quantum_iot_auth.HardhatRunner.Comparison.{run_gas_comparison_lem}
use post_quantum_iot_auth.Runner.Setup.{IsDeploying}
use post_quantum_iot_auth.Tests.FalconTests.{sensor}
use post_quantum_iot_auth.Tests.Toy.{toy, toy_web3}

abbrev deployed : HardhatBackend toy toy_web3
deployed = record (new_backend toy toy_web3) {
  contracts = some (record {
    did_registry = tt;
    meta_tx_relay = tt;
    ecdsa_verify = tt;
    owner = codes "o";
    relay_account = codes "r";
  });
}

abbrev start : State toy toy_web3
start = (deployed, 3)

abbrev extras : MetaExtras toy toy_web3
extras = record {
  data_hash_bytes = none;
  did_hash_bytes = none;
  signature_bytes = some [];
  did_public_key = some [];
}

submissions-Outcome_example :
    Outcome toy toy_web3
      (submit_transaction toy toy_web3 (codes "s") (codes "d") 32 true start).0
      (log toy toy_web3 start)
      (log toy toy_web3 (submit_transaction toy toy_web3 (codes "s") (codes "d") 32 true start).1)
    × Outcome toy toy_web3
        (submit_meta_transaction toy toy_web3 (codes "s") (codes "d") 32 true extras start).0
        (log toy toy_web3 start)
        (log toy toy_web3
          (submit_meta_transaction toy toy_web3 (codes "s") (codes "d") 32 true extras start).1)
submissions-Outcome_example =
    submissions-Outcome toy toy_web3 (codes "s") (codes "d") 32 true extras start

abbrev mined : Transaction toy
mined = record {
  sender = codes "r";
  data_hash = codes "d";
  kind = meta_transaction 752;
  gas_used = 800000;
  block_number = 1;
  latency_ms = 4;
  timestamp = 5;
}

abbrev busy : HardhatBackend toy toy_web3
busy = record deployed {
  transactions = Dict.insert (codes "01") mined Dict.empty;
  tx_order = codes "01" ∷ [];
}

found : Dict.lookup (codes "01") busy.transactions ≡ some mined
found = lookup-insert_self (codes "01") mined Dict.empty

pub toy_web3-IsMining : IsMining toy toy_web3
unfolding component_bytes
toy_web3-IsMining = record {
  connected = λ w. refl;
  account = λ w. (2 ∷ [], refl);
  mines = λ c f sender w. (_, refl);
  address = λ key. (_, refl);
  signs = λ hash key. (_, hash, key, refl, refl, refl);
}

abbrev two_devices : List IotDevice
two_devices = sensor ∷ record sensor { did = codes "did:falconiot:s2" } ∷ []

pub toy_web3-IsDeploying : IsDeploying toy toy_web3
toy_web3-IsDeploying = record {
  artifact = λ name. refl;
  owner = λ w. (0 ∷ [], refl);
  relay = λ w. (1 ∷ [], refl);
  deploys = λ name arg sender w. (_, refl);
}

abbrev compiled : Exec ℕ (Unit {0})
compiled w = (ok tt, w + 1)

run_gas_comparison_lem_example :
    Returns
      (run_gas_comparison toy toy_web3 compiled 3 (new_runner toy toy_web3 compiled, 5))
      (λ c t. IsReported toy toy_web3 compiled 3 c t)
run_gas_comparison_lem_example =
    run_gas_comparison_lem toy toy_web3 compiled toy_web3-IsMining toy_web3-IsDeploying (λ w. refl)
      2 (new_runner toy toy_web3 compiled, 5)
